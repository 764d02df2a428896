-- ===== src/Automation/Actions.antt =====
-- waitForMqttEvent: what an automation does with one event.
use aghast.Base.{
  ℕ, ◌+◌, ◌≤◌, ◌≡◌, sym, ap, ◌∙◌, String, Bool, true, false, Option, none, some, List, [], ◌∷◌,
  ◌++◌, map, lookup_or, arith, length, length-append, if◌then◌else◌, Outcome, done, ◌>>=◌,
}
use mathlib.Core.List.{append_assoc, append-nil}
use aghast.Runtime.{Runtime, Value, string}
use aghast.Mqtt.{Mqtt, GeneralMsg, outbound_queue_len, send_third_party}
use aghast.Automation.{AutomationT, Action}
use aghast.Automation.Testing.{test_condition}

-- A missing key of the map of actions gives an empty action.
abbrev no_action : Action
no_action = record { topic = ""; payload = "" }

module _ {F : Type 0} where
  abbrev pub action_msg : AutomationT F → String → GeneralMsg (Value F)
  action_msg auto k =
      let ac = lookup_or no_action k auto.actions in
      record { topic = ac.topic; qos = 0; retained = false; payload = string ac.payload }

  -- The loop over the sorted keys.
  pub fire : AutomationT F → List String → Mqtt (Value F) → Outcome (Mqtt (Value F))
  unfolding send_third_party
  fire auto [] mq = done mq
  fire auto (k ∷ ks) mq = do sent ← send_third_party (action_msg auto k) mq; fire auto ks sent

module _ (rt : Runtime) where
  open rt use {Float}

  abbrev pub decide :
      AutomationT Float
      → Value Float
      → (ℕ → Mqtt (Value Float) → Mqtt (Value Float) × Option (GeneralMsg (Value Float)))
      → Mqtt (Value Float)
      → Outcome (Bool × Mqtt (Value Float))
  decide auto payload wait mq = elim auto.condition [
    | none ↦ done (true, mq)
    | some cond ↦ test_condition rt cond payload wait mq
  ]

  pub on_event :
      AutomationT Float
      → (payload : Value Float)
      → (wait : ℕ → Mqtt (Value Float) → Mqtt (Value Float) × Option (GeneralMsg (Value Float)))
      → Mqtt (Value Float)
      → Outcome (Mqtt (Value Float))
  unfolding test_condition fire
  on_event auto payload wait mq = do
    let fired = decide auto payload wait mq
    (doit, tested) ← fired
    if doit then fire auto auto.sorted_action_keys tested else done tested

module _ {F : Type 0} where
  -- The connection with these messages behind those that wait for the broker.
  abbrev pub with_sent : Mqtt (Value F) → List (GeneralMsg (Value F)) → Mqtt (Value F)
  with_sent mq msgs = record mq { third_party_chan = mq.third_party_chan ++ msgs }

  with_sent_nil : (mq : Mqtt (Value F)) → with_sent mq [] ≡ mq
  with_sent_nil mq = ap (λ c. record mq { third_party_chan = c }) (append-nil mq.third_party_chan)

  with_sent_cons :
      (mq : Mqtt (Value F)) (msg : GeneralMsg (Value F)) (msgs : List (GeneralMsg (Value F)))
      → with_sent (with_sent mq (msg ∷ [])) msgs ≡ with_sent mq (msg ∷ msgs)
  with_sent_cons mq msg msgs =
      ap (λ c. record mq { third_party_chan = c })
        (append_assoc mq.third_party_chan (msg ∷ []) msgs)

  -- With room in the channel the loop sends the action of each key, in order.
  fire_all :
      (auto : AutomationT F) (keys : List String) (mq : Mqtt (Value F))
      → length mq.third_party_chan + length keys ≤ outbound_queue_len
      → fire auto keys mq ≡ done (with_sent mq (map (action_msg auto) keys))
  unfolding fire
  fire_all auto [] mq room = ap done (sym (with_sent_nil mq))
  fire_all auto (k ∷ ks) mq room =
      let msg = action_msg auto k in
      let one : send_third_party msg mq ≡ done (with_sent mq (msg ∷ [])) =
        unfold send_third_party in ground arith in
      rw one (
        fire_all auto ks (with_sent mq (msg ∷ []))
          (omega (arith, length-append mq.third_party_chan (msg ∷ [])))
        ∙ ap done (with_sent_cons mq msg (map (action_msg auto) ks)))

module _ (rt : Runtime) where
  open rt use {Float}

  -- An event whose condition was tested to the answer `doit`, with room in the channel: the message
  -- of every action is sent, in the order of the sorted keys, if `doit`, and nothing otherwise.
  pub on_event_lem :
      (auto : AutomationT Float) (payload : Value Float)
      (wait : ℕ → Mqtt (Value Float) → Mqtt (Value Float) × Option (GeneralMsg (Value Float)))
      (mq tested : Mqtt (Value Float)) (doit : Bool)
      → decide rt auto payload wait mq ≡ done (doit, tested)
      → length tested.third_party_chan + length auto.sorted_action_keys ≤ outbound_queue_len
      → on_event rt auto payload wait mq
        ≡ done (
            if doit
            then with_sent tested (map (action_msg auto) auto.sorted_action_keys)
            else tested)
  unfolding on_event
  on_event_lem auto payload wait mq tested true decided room =
      rw decided (fire_all auto auto.sorted_action_keys tested room)
  on_event_lem auto payload wait mq tested false decided room = rw decided
