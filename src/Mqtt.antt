-- ===== src/Mqtt.antt =====
-- mqtt/mqtt.go: the connection to the broker. The paho client is not part of the repository: what
-- the code asks of it is the list `calls`, in order. A Go channel is its number, its waiting
-- messages are a list in `inbound`. `P` is the type of payloads, which this package passes on.
pub mod Chans
pub mod Subscribers
pub mod Listening
pub mod Resubscribing
pub mod Fanning
mod Tests
use aghast.Base.{
  ℕ, zero, suc, ◌+◌, ◌-◌, String, Bool, true, false, not, Option, none, some, List, [], ◌∷◌, ◌++◌,
  if◌then◌else◌, ◌==◌, nat_comparable, string_comparable, ltb, length, get_elem?, set, take, Assoc,
  lookup, lookup_or, insert, Outcome, done, panicked, blocked, ◌>>=◌,
}
use Prim.Native.String

abbrev pub inbound_queue_len : ℕ
inbound_queue_len = 100

abbrev pub outbound_queue_len : ℕ
outbound_queue_len = 100

pub record AghastMsg (P : Type 0) : Type 0 where
  pub subtopic : String
  pub qos : ℕ
  pub retained : Bool
  pub payload : P

pub record GeneralMsg (P : Type 0) : Type 0 where
  pub topic : String
  pub qos : ℕ
  pub retained : Bool
  pub payload : P

-- The callbacks that the code hands to the client: one that sends to a single channel, and the
-- one of fanOut.
pub data Handler : Type 0 where
  direct : ℕ → Handler
  fan : String → Handler

pub record Options : Type 0 where
  pub broker : String
  pub port : ℕ
  pub login : Option (String × String)
  pub client_id : String

pub data Call (P : Type 0) : Type 0 where
  connect : Options → Call P
  disconnect : ℕ → Call P
  subscribe : String → Handler → Call P
  unsubscribe : String → Call P
  publish : String → ℕ → Bool → P → Call P

pub record Mqtt (P : Type 0) : Type 0 where
  pub publish_chan : List (AghastMsg P)
  pub third_party_chan : List (GeneralMsg P)
  pub subs : Assoc (List ℕ)
  pub inbound : List (List (GeneralMsg P))
  pub base_topic : String
  pub calls : List (Call P)
  pub fan_outs : List String  -- goroutines `fanOut(topic)` that were started and have not run yet

module _ {P : Type 0} where
  -- The client answers the connection attempt with success or an error.
  unfoldable pub start :
      (connected : Bool) (starting : P) (broker : String) (port : ℕ)
      (username password client_id base_topic : String)
      → Mqtt P
      → Outcome (Mqtt P)
  start connected starting broker port username password client_id base_topic m =
      let login : Option (String × String) =
        if username == "" then none else some (username, password) in
      let options : Options = record {
        broker = broker;
        port = port;
        login = login;
        client_id = client_id;
      } in
      let status : AghastMsg P = record {
        subtopic = "/status";
        qos = 0;
        retained = false;
        payload = starting;
      } in
      if connected
      then done (record m {
        publish_chan = status ∷ [];
        third_party_chan = [];
        subs = [];
        base_topic = base_topic;
        calls = m.calls ++ connect options ∷ [];
      })
      else panicked

  pub disconnect_after : Mqtt P → Mqtt P
  disconnect_after m = record m { calls = m.calls ++ disconnect 100 ∷ [] }

  -- `m.PublishChan <- msg` and `m.ThirdPartyChan <- msg`, by the integrations.
  unfoldable pub send_publish : AghastMsg P → Mqtt P → Outcome (Mqtt P)
  send_publish msg m =
      if ltb (length m.publish_chan) outbound_queue_len
      then done (record m { publish_chan = m.publish_chan ++ msg ∷ [] })
      else blocked

  unfoldable pub send_third_party : GeneralMsg P → Mqtt P → Outcome (Mqtt P)
  send_third_party msg m =
      if ltb (length m.third_party_chan) outbound_queue_len
      then done (record m { third_party_chan = m.third_party_chan ++ msg ∷ [] })
      else blocked

  -- One round of aghastPublish.
  unfoldable pub aghast_publish : Mqtt P → Outcome (Mqtt P)
  aghast_publish m = elim m.publish_chan [
    | [] ↦ blocked
    | msg ∷ rest ↦
        let topic = String.◌++◌ m.base_topic msg.subtopic in
        done (record m {
          publish_chan = rest;
          calls = m.calls ++ publish topic msg.qos msg.retained msg.payload ∷ [];
        })
  ]

  -- One round of thirdPartyPublish.
  unfoldable pub third_party_publish : Mqtt P → Outcome (Mqtt P)
  third_party_publish m = elim m.third_party_chan [
    | [] ↦ blocked
    | msg ∷ rest ↦ done (record m {
      third_party_chan = rest;
      calls = m.calls ++ publish msg.topic msg.qos msg.retained msg.payload ∷ [];
    })
  ]

  -- `ch <- msg` on a channel with a buffer.
  unfoldable pub send :
      ℕ → GeneralMsg P → List (List (GeneralMsg P)) → Outcome (List (List (GeneralMsg P)))
  send ch msg inbound = elim (get_elem? inbound ch) [
    | none ↦ blocked  -- a nil channel
    | some waiting ↦
        if ltb (length waiting) inbound_queue_len
        then done (set inbound ch (waiting ++ msg ∷ []))
        else blocked
  ]

  unfoldable pub send_each :
      List ℕ → GeneralMsg P → List (List (GeneralMsg P)) → Outcome (List (List (GeneralMsg P)))
  send_each [] msg inbound = done inbound
  send_each (ch ∷ chs) msg inbound = do inbound' ← send ch msg inbound; send_each chs msg inbound'

  -- What a callback does with a message from the broker.
  unfoldable pub receive : Handler → GeneralMsg P → Mqtt P → Outcome (Mqtt P)
  unfolding send_each
  receive (direct ch) msg m = do
    inbound ← send ch msg m.inbound
    done (record m { inbound = inbound })
  receive (fan topic) msg m = do
    inbound ← send_each (lookup_or [] topic m.subs) msg m.inbound
    done (record m { inbound = inbound })

  -- The body of the goroutine fanOut: it replaces the callback of the topic.
  unfoldable pub fan_out : String → Mqtt P → Mqtt P
  fan_out topic m = record m { calls = m.calls ++ subscribe topic (fan topic) ∷ [] }

  -- The goroutine that was started first runs.
  unfoldable pub run_fan_out : Mqtt P → Mqtt P
  unfolding fan_out
  run_fan_out m = elim m.fan_outs [
    | [] ↦ m
    | topic ∷ rest ↦ fan_out topic (record m { fan_outs = rest })
  ]

  abbrev pub is_known : String → Mqtt P → Bool
  is_known topic m = elim (lookup topic m.subs) [ none ↦ false | some chs ↦ true ]

  unfoldable pub subscribe_and_map : ℕ → String → Mqtt P → Mqtt P
  subscribe_and_map ch topic m =
      let m' : Mqtt P = if is_known topic m then m else record m {
        calls = m.calls ++ subscribe topic (direct ch) ∷ [];
        fan_outs = m.fan_outs ++ topic ∷ [];
      } in
      record m' { subs = insert topic (lookup_or [] topic m.subs ++ ch ∷ []) m.subs }

  -- `make(chan GeneralMsgT, …)` is the next number of `inbound`.
  unfoldable pub subscribe_to_topic : String → Mqtt P → Mqtt P × ℕ
  unfolding subscribe_and_map
  subscribe_to_topic topic m =
      let ch = length m.inbound in
      (subscribe_and_map ch topic (record m { inbound = m.inbound ++ [] ∷ [] }), ch)

  unfoldable pub subscribe_using_chan : String → ℕ → Mqtt P → Mqtt P
  unfolding subscribe_and_map
  subscribe_using_chan topic ch m = subscribe_and_map ch topic m

-- The last channel takes the place of the one that goes.
unfoldable pub remove_chan : List ℕ → ℕ → Outcome (List ℕ)
remove_chan chans i =
    let last = length chans - 1 in
    elim (get_elem? chans last) [
      | none ↦ panicked
      | some ch ↦ if ltb i (length chans) then done (take last (set chans i ch)) else panicked
    ]

-- The loop of UnsubscribeFromTopic: where the channel stands, from index `ix` on.
unfoldable pub index_from : ℕ → ℕ → List ℕ → Option ℕ
index_from ix ch [] = none
index_from ix ch (x ∷ xs) =
    let later = index_from (ix + 1) ch xs in if x == ch then some ix else later

module _ {P : Type 0} where
  unfoldable pub unsubscribe_from_topic : String → ℕ → Mqtt P → Outcome (Mqtt P)
  unfolding remove_chan index_from
  unsubscribe_from_topic topic ch m = elim (lookup topic m.subs) [
    | none ↦ done m
    | some subs ↦ elim (index_from 0 ch subs) [
      | none ↦ done m
      | some ix ↦
          if length subs == 1
          then done (record m {
            calls = m.calls ++ unsubscribe topic ∷ [];
            subs = insert topic [] m.subs;
          })
          else do rest ← remove_chan subs ix; done (record m { subs = insert topic rest m.subs })
    ]
  ]
