-- ===== src/MqttCache.antt =====
-- integrations/mqttcache/mqttcache.go. A time is its nanoseconds on the monotonic clock. Reading and
-- decoding the TOML file is left to the caller of `load_config`. The two channels that Start makes
-- have no buffer: a message on them is the argument of `store` or `respond`.
pub mod History
mod Tests
use aghast.Base.{
  ℕ, suc, ◌+◌, ◌-◌, String, Bool, true, false, Option, none, some, List, [], ◌∷◌, ◌++◌,
  if◌then◌else◌, Assoc, lookup, lookup_or, insert, drop_prefix, length, Outcome, done, panicked,
  fatal, ◌>>=◌,
}
use Prim.Native.String
use aghast.Base.Int.{ℤ, pos, times64, ltb_ℤ}
use aghast.Runtime.{Value, nil, string, as_bytes}
use aghast.Mqtt.{Mqtt, GeneralMsg, subscribe_using_chan, unsubscribe_from_topic, send_third_party}

abbrev pub topic_prefix : String
topic_prefix = "aghast/mqttcache/"

abbrev pub get_topic_prefix : String
get_topic_prefix = "aghast/mqttcache/get/"

-- A table [[Cache]] of the file.
pub record Setting : Type 0 where
  pub topic : String
  pub retain_secs : ℤ

-- `last_msg_time` is none where it is time.Time{}.
pub record CacheT (F : Type 0) : Type 0 where
  pub topic : String
  pub retain_secs : ℤ
  pub last_message : GeneralMsg (Value F)
  pub last_msg_time : Option ℕ

-- time.Since beyond the retention.
abbrev pub expired : (now at : ℕ) → ℤ → Bool
expired now at retain_secs = ltb_ℤ (times64 1000000000 retain_secs) (pos (now - at))

module _ {F : Type 0} where
  abbrev pub no_message : GeneralMsg (Value F)
  no_message = record { topic = ""; qos = 0; retained = false; payload = nil }

  abbrev pub fresh : Setting → CacheT F
  fresh c = record {
    topic = c.topic;
    retain_secs = c.retain_secs;
    last_message = no_message;
    last_msg_time = none;
  }

  abbrev pub no_cache : CacheT F
  no_cache = record {
    topic = "";
    retain_secs = pos 0;
    last_message = no_message;
    last_msg_time = none;
  }

  unfoldable pub fill_map : List Setting → Assoc (CacheT F) → Assoc (CacheT F)
  fill_map [] m = m
  fill_map (c ∷ cs) m = fill_map cs (insert c.topic (fresh c) m)

  -- none: the file cannot be read or decoded.
  pub load_config : Option (List Setting) → Outcome (List Setting × Assoc (CacheT F))
  unfolding fill_map
  load_config none = fatal
  load_config (some cs) = done (cs, fill_map cs [])

  -- A message on allMsgs.
  unfoldable pub store : GeneralMsg (Value F) → (now : ℕ) → Assoc (CacheT F) → Assoc (CacheT F)
  store msg now m =
      let tmp = lookup_or no_cache msg.topic m in
      insert msg.topic (record tmp { last_message = msg; last_msg_time = some now }) m

  -- The four cases.
  unfoldable pub answer : String → (now : ℕ) → Assoc (CacheT F) → Outcome String
  answer req_topic now m = elim (lookup req_topic m) [
    | none ↦ done "{\"Error\": \"Not configured in mqttcache\"}"
    | some cache ↦ elim cache.last_msg_time [
      | none ↦ done "{\"Error\": \"No data collected yet\"}"
      | some at ↦
          if expired now at cache.retain_secs
          then done "{\"Error\": \"Data expired\"}"
          else as_bytes cache.last_message.payload
    ]
  ]

  abbrev pub reply_to : (req_topic payload : String) → GeneralMsg (Value F)
  reply_to req_topic payload = record {
    topic = String.◌++◌ topic_prefix req_topic;
    qos = 0;
    retained = false;
    payload = string payload;
  }

  -- A message on allReqs.
  unfoldable pub respond :
      GeneralMsg (Value F)
      → (now : ℕ) → Assoc (CacheT F)
      → Mqtt (Value F)
      → Outcome (Mqtt (Value F))
  unfolding answer
  respond req now m mq = do
    req_topic ← elim (drop_prefix req.topic get_topic_prefix) [ none ↦ panicked | some t ↦ done t ]
    payload ← answer req_topic now m
    send_third_party (reply_to req_topic payload) mq

  pub subscribe_each : List Setting → (all_msgs all_reqs : ℕ) → Mqtt (Value F) → Mqtt (Value F)
  subscribe_each [] all_msgs all_reqs mq = mq
  subscribe_each (c ∷ cs) all_msgs all_reqs mq =
      let msgs = subscribe_using_chan c.topic all_msgs mq in
      let reqs = subscribe_using_chan (String.◌++◌ get_topic_prefix c.topic) all_reqs msgs in
      subscribe_each cs all_msgs all_reqs reqs

  -- Start: the connection, with the numbers of the two new channels.
  pub start : List Setting → Mqtt (Value F) → Mqtt (Value F) × ℕ × ℕ
  unfolding subscribe_each
  start cs mq =
      let all_msgs = length mq.inbound in
      let all_reqs = all_msgs + 1 in
      let made : Mqtt (Value F) = record mq { inbound = mq.inbound ++ [] ∷ [] ∷ [] } in
      (subscribe_each cs all_msgs all_reqs made, all_msgs, all_reqs)

  -- Either goroutine when it stops, with the prefix of its topics and its channel.
  pub unsubscribe_each :
      (prefix : String) → (ch : ℕ) → List Setting → Mqtt (Value F) → Outcome (Mqtt (Value F))
  unsubscribe_each prefix ch [] mq = done mq
  unsubscribe_each prefix ch (c ∷ cs) mq = do
    left ← unsubscribe_from_topic (String.◌++◌ prefix c.topic) ch mq
    unsubscribe_each prefix ch cs left

  -- Stop: the goroutine of the sources, then that of the requests.
  pub stop : (all_msgs all_reqs : ℕ) → List Setting → Mqtt (Value F) → Outcome (Mqtt (Value F))
  unfolding unsubscribe_each
  stop all_msgs all_reqs cs mq = do
    left ← unsubscribe_each "" all_msgs cs mq
    unsubscribe_each get_topic_prefix all_reqs cs left
