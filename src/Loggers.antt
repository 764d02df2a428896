-- ===== src/Loggers.antt =====
-- What the loggers of integrations/datalogger, influx and postgres have in common, which each of the
-- three files repeats: the value that is taken out of a message, and a goroutine for each table
-- [[Logger]], from its subscription until Stop.
pub mod Extraction
pub mod Lifetime
mod Tests
use aghast.Base.{
  ℕ, String, Option, none, some, List, [], ◌∷◌, if◌then◌else◌, ◌==◌, string_comparable, Assoc,
  lookup, Outcome, done, ◌>>=◌,
}
use aghast.Base.Int.{ℤ}
use aghast.Runtime.{Value, string, as_bytes, as_string}
use aghast.Mqtt.{Mqtt, subscribe_to_topic, unsubscribe_from_topic}

-- JSON, and what Go does with floating-point numbers.
pub record Floats (F : Type 0) : Type 0 where
  pub unmarshal : String → Option (Assoc (Value F))  -- none: an error
  pub parse_float : String → Option F
  pub zero_float : F
  pub round : F → ℤ  -- int(math.Round(x))
  pub general : F → String  -- %v
  pub fixed : F → String  -- %f

module _ {F : Type 0} (floats : Floats F) where
  open floats use {unmarshal}

  -- The field of a JSON object. Both log lines assert the payload to be a string; none: the
  -- goroutine returns.
  unfoldable pub field_of : (key : String) → Value F → Outcome (Option (Value F))
  field_of key payload = do
    text ← as_bytes payload
    elim (unmarshal text) [
      | none ↦ (as_string payload >>= λ _. done none)
      | some json ↦ elim (lookup key json) [
        | none ↦ (as_string payload >>= λ _. done none)
        | some v ↦ done (some v)
      ]
    ]

  -- The value that influx and postgres log.
  unfoldable pub value_of : (key : String) → Value F → Outcome (Option (Value F))
  unfolding field_of
  value_of key payload =
      if key == ""
      then (as_bytes payload >>= λ text. done (some (string text)))
      else field_of key payload

-- A goroutine that runs for one table, with the number of its channel and its own variables.
pub record Goroutine (S : Type 0) : Type 0 where
  pub topic : String
  pub ch : ℕ
  pub own : S

module _ {S P : Type 0} where
  -- The goroutines reach their subscriptions in the order of the tables.
  unfoldable pub start_each : List (String × S) → Mqtt P → List (Goroutine S) × Mqtt P
  start_each [] mq = ([], mq)
  start_each ((topic, own) ∷ tables) mq =
      let (subscribed, ch) = subscribe_to_topic topic mq in
      let (others, last) = start_each tables subscribed in
      let first : Goroutine S = record { topic = topic; ch = ch; own = own } in
      (first ∷ others, last)

  -- Stop tells each goroutine; it does its last work, and the deferred call unsubscribes it.
  unfoldable pub stop_each :
      (last_work : S → S) → List (Goroutine S) → Mqtt P → Outcome (List S × Mqtt P)
  stop_each last_work [] mq = done ([], mq)
  stop_each last_work (g ∷ gs) mq = do
    left ← unsubscribe_from_topic g.topic g.ch mq
    (others, last) ← stop_each last_work gs left
    done (last_work g.own ∷ others, last)
