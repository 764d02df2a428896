-- ===== src/Influx.antt =====
-- integrations/influx/influx.go. Reading and decoding the TOML file is left to the caller of
-- `load_config`. The client of the database is not part of the repository: what is asked of it is
-- the list of points and the number of flushes.
pub mod Points
pub mod Readings
mod Tests
use Prim.Native.String
use aghast.Base.{
  ℕ, suc, ◌+◌, String, Bool, true, false, not, Option, none, some, List, [], ◌∷◌, ◌++◌, map, length,
  if◌then◌else◌, ◌==◌, string_comparable, atoi, Outcome, done, fatal, ◌>>=◌,
}
use aghast.Base.Int.{ℤ, pos}
use aghast.Runtime.{Value, nil, other, bool, int, int64, float64, string, bytes, as_string}
use aghast.Mqtt.{Mqtt, GeneralMsg}
use aghast.Loggers.{Floats, value_of, Goroutine, start_each, stop_each}

pub record LoggerT : Type 0 where
  pub name : String
  pub topic : String
  pub key : String
  pub data_type : String

-- none: the file cannot be decoded, or an error of the preprocessing is returned.
pub load_config :
    (preprocessed : Option String)
    → (decode : String → Option (List LoggerT)) → Outcome (Option (List LoggerT))
load_config none decode = done none
load_config (some text) decode = elim (decode text) [ none ↦ fatal | some ls ↦ done (some ls) ]

pub data Field (F : Type 0) : Type 0 where
  float : F → Field F
  integer : ℤ → Field F
  text : String → Field F

-- A point has one tag, EventName, which is the key of its only field. Its time is left out.
pub record Point (F : Type 0) : Type 0 where
  pub name : String
  pub event_name : String
  pub field : Field F

pub record Written (F : Type 0) : Type 0 where
  pub points : List (Point F)
  pub flushes : ℕ

abbrev pub point_key : LoggerT → String
point_key l = if l.key == "" then l.topic else String.◌++◌ l.topic (String.◌++◌ "/" l.key)

abbrev pub add_point : {F : Type 0} → LoggerT → Option (Field F) → Written F → Written F
add_point l none w = w
add_point l (some field) w = record w {
  points = w.points ++ record { name = l.name; event_name = point_key l; field = field } ∷ [];
}

module _ {F : Type 0} (floats : Floats F) where
  open floats use {parse_float, zero_float}

  -- none: a warning, and the next message.
  unfoldable pub float_of : Value F → Option F
  float_of (float64 x) = some x
  float_of (string s) = parse_float s
  float_of _ = some zero_float

  unfoldable pub integer_of : Value F → Option ℤ
  integer_of (int n) = some n
  integer_of (int64 n) = some n
  integer_of (string s) = atoi s
  integer_of _ = some (pos 0)

  -- The switch on the type.
  unfoldable pub field_for : (data_type : String) → Value F → Outcome (Option (Field F))
  unfolding float_of integer_of
  field_for data_type v =
      if data_type == "float"
      then done (elim (float_of v) [ none ↦ none | some x ↦ some (float x) ])
      else if data_type == "integer"
      then done (elim (integer_of v) [ none ↦ none | some n ↦ some (integer n) ])
      else (as_string v >>= λ s. done (some (text s)))

  -- A message on the channel; none: the goroutine has returned.
  unfoldable pub log_message :
      LoggerT → GeneralMsg (Value F) → Written F → Outcome (Option (Written F))
  unfolding field_for
  log_message l msg w = do
    value ← value_of floats l.key msg.payload
    elim value [
      | none ↦ done none
      | some v ↦ (field_for l.data_type v >>= λ field. done (some (add_point l field w)))
    ]

  -- The goroutine.
  unfoldable pub log_messages :
      LoggerT → List (GeneralMsg (Value F)) → Written F → Outcome (Option (Written F))
  unfolding log_message
  log_messages l [] w = done (some w)
  log_messages l (msg ∷ msgs) w = do
    next ← log_message l msg w
    elim next [ none ↦ done none | some w' ↦ log_messages l msgs w' ]

abbrev pub tables : List LoggerT → List (String × LoggerT)
tables ls = map (λ l. (l.topic, l)) ls

module _ {P : Type 0} where
  pub start : List LoggerT → Mqtt P → List (Goroutine LoggerT) × Mqtt P
  unfolding start_each
  start ls mq = start_each (tables ls) mq

  -- Each goroutine flushes what was written through the client that they share.
  pub stop :
      {F : Type 0} → List (Goroutine LoggerT) → Written F → Mqtt P → Outcome (Written F × Mqtt P)
  unfolding stop_each
  stop gs w mq = do
    (stopped, left) ← stop_each (λ l. l) gs mq
    done (record w { flushes = w.flushes + length stopped }, left)
