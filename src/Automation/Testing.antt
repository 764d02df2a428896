-- ===== src/Automation/Testing.antt =====
-- testCondition: where the value to test comes from, what is read from it, and the comparison.
pub mod Laws
pub mod Cleanup
use aghast.Base.{
  ℕ, String, Bool, true, false, not, Option, none, some, List, [], ◌∷◌, ◌++◌, if◌then◌else◌, ◌==◌,
  nat_comparable, string_comparable, str_lt, length, ltb, lookup, Outcome, done, panicked, blocked,
  ◌>>=◌, ◌>>◌,
}
use aghast.Base.Int.{ℤ, pos, ltb_ℤ}
use aghast.Runtime.{
  Runtime, Value, nil, other, bool, int, int64, float64, string, bytes, as_bool, as_int64,
  as_float64, as_string, as_bytes,
}
use aghast.Mqtt.{Mqtt, GeneralMsg, send_third_party, subscribe_to_topic, unsubscribe_from_topic}
use aghast.Automation.{Condition}

-- The variables respAsBool and so on.
pub record Response (F : Type 0) : Type 0 where
  pub as_bool : Bool
  pub as_f64 : F
  pub as_i64 : ℤ
  pub as_str : String

module _ (rt : Runtime) where
  open rt use {Float, float_zero, float_lt, float_eq, unmarshal}

  abbrev pub zero_response : Response Float
  zero_response = record { as_bool = false; as_f64 = float_zero; as_i64 = pos 0; as_str = "" }

  -- No key: the payload itself, asserted to be of the type of the condition's value.
  unfoldable pub read_raw : Value Float → Value Float → Outcome (Response Float)
  read_raw (bool _) payload = do b ← as_bool payload; done (record zero_response { as_bool = b })
  read_raw (float64 _) payload = do
    x ← as_float64 payload
    done (record zero_response { as_f64 = x })
  read_raw (int64 _) payload = do n ← as_int64 payload; done (record zero_response { as_i64 = n })
  read_raw (string _) payload = do s ← as_string payload; done (record zero_response { as_str = s })
  read_raw _ payload = done zero_response

  -- A field of a JSON object: it fills the variable of its own type.
  unfoldable pub read_field : Value Float → Response Float
  read_field (bool b) = record zero_response { as_bool = b }
  read_field (float64 x) = record zero_response { as_f64 = x }
  read_field (int64 n) = record zero_response { as_i64 = n }
  read_field (string s) = record zero_response { as_str = s }
  read_field _ = zero_response

  -- A field of the JSON object in the payload; none is an early `return false`. The log line for
  -- malformed JSON asserts the payload, which was []uint8 a moment ago, to be a string.
  unfoldable pub read_json : String → Value Float → Outcome (Option (Response Float))
  unfolding read_field
  read_json key payload = do
    text ← as_bytes payload
    elim (unmarshal text) [
      | none ↦ as_string payload >>= λ _. done none
      | some fields ↦ elim (lookup key fields) [
        | none ↦ done none
        | some v ↦ done (some (read_field v))
      ]
    ]

  unfoldable pub read_response : Condition Float → Value Float → Outcome (Option (Response Float))
  unfolding read_raw read_json
  read_response cond payload =
      if cond.key == ""
      then (read_raw cond.value payload >>= λ r. done (some r))
      else read_json cond.key payload

  -- The inner switches on the operator, in their order.
  abbrev pub by_operator :
      String → Outcome Bool → Outcome Bool → Outcome Bool → Outcome Bool → Outcome Bool
  by_operator is lt gt eq ne =
      if is == "<"
      then lt
      else if is == ">"
      then gt
      else if is == "="
      then eq
      else if is == "!="
      then ne
      else done false

  -- The last switch. `int` values do not come from TOML, whose integers are int64, and an assertion
  -- to int64 would panic; int64 values take the default.
  unfoldable pub compare_response : String → Value Float → Response Float → Outcome Bool
  compare_response is (bool b) r = done (if r.as_bool then b else not b)
  compare_response is (float64 x) r =
      by_operator is (done (float_lt r.as_f64 x)) (done (float_lt x r.as_f64))
        (done (float_eq r.as_f64 x)) (done (not (float_eq r.as_f64 x)))
  compare_response is (int n) r = by_operator is panicked panicked panicked panicked
  compare_response is (string s) r =
      by_operator is (done (str_lt r.as_str s)) (done (str_lt s r.as_str)) (done (r.as_str == s))
        (done (not (r.as_str == s)))
  compare_response is _ r = done false

  -- What testCondition makes of a payload.
  unfoldable pub check_payload : Condition Float → Value Float → Outcome Bool
  unfolding read_response compare_response
  check_payload cond payload = do
    response ← read_response cond payload
    elim response [ none ↦ done false | some r ↦ compare_response cond.is cond.value r ]

  abbrev pub Mq : Type 0
  Mq = Mqtt (Value Float)

  abbrev pub answer_topic : Condition Float → String
  answer_topic cond = if cond.reply_topic == "" then cond.query_topic else cond.reply_topic

  abbrev pub query_of : Condition Float → GeneralMsg (Value Float)
  query_of cond = record {
    topic = cond.query_topic;
    qos = 0;
    retained = false;
    payload = string cond.payload;
  }

  abbrev pub judge : Condition Float → Option (GeneralMsg (Value Float)) → Outcome Bool
  judge cond none = done false
  judge cond (some resp) = check_payload cond resp.payload

  -- The branch that queries. `wait` is what the broker and the other goroutines do until the select
  -- ends: the message that arrived on the channel, or none after five seconds.
  unfoldable pub ask :
      Condition Float
      → (wait : ℕ → Mq → Mq × Option (GeneralMsg (Value Float))) → Mq
      → Outcome (Bool × Mq)
  unfolding check_payload send_third_party
  ask cond wait mq = do
    let (subscribed, ch) = subscribe_to_topic (answer_topic cond) mq
    sent ← send_third_party (query_of cond) subscribed
    let (later, arrived) = wait ch sent
    result ← judge cond arrived
    left ← unsubscribe_from_topic (answer_topic cond) ch later
    done (result, left)

  unfoldable pub test_condition :
      Condition Float
      → (event_payload : Value Float) → (wait : ℕ → Mq → Mq × Option (GeneralMsg (Value Float)))
      → Mq
      → Outcome (Bool × Mq)
  unfolding check_payload ask
  test_condition cond event_payload wait mq =
      if cond.query_topic == ""
      then (check_payload cond event_payload >>= λ result. done (result, mq))
      else ask cond wait mq
