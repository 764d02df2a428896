-- ===== src/Datalogger.antt =====
-- integrations/datalogger/dataLogger.go. Reading and decoding the TOML file is left to the caller of
-- `load_config`. The text of the time is an argument.
pub mod Flushing
mod Tests
use Prim.Native.String
use aghast.Base.{
  ℕ, ◌+◌, String, Bool, true, false, Option, none, some, List, [], ◌∷◌, ◌++◌, map, if◌then◌else◌,
  ◌==◌, string_comparable, join, length, itoa, utf8, Outcome, done, fatal, ◌>>=◌,
}
use aghast.Base.Int.{ℤ, pos, plus_one, eqb_ℤ}
use aghast.Runtime.{Value, nil, other, bool, int, int64, float64, string, bytes}
use aghast.Mqtt.{Mqtt, GeneralMsg}
use aghast.Loggers.{Floats, field_of, Goroutine, start_each, stop_each}

pub record LoggerT : Type 0 where
  pub log_file : String
  pub topic : String
  pub key : String
  pub flush_every : ℤ

-- none: the file cannot be decoded, or an error of the preprocessing is returned.
pub load_config :
    (preprocessed : Option String)
    → (decode : String → Option (List LoggerT)) → Outcome (Option (List LoggerT))
load_config none decode = done none
load_config (some text) decode = elim (decode text) [ none ↦ fatal | some ls ↦ done (some ls) ]

-- The CSV file: what was written to it, and how many of these rows the last Flush covers. (The
-- writer may hand rows on earlier, when its own buffer is full.)
pub record Log : Type 0 where
  pub rows : List (List String)
  pub flushed : ℕ
  pub unflushed : ℤ

-- Flush.
abbrev pub flush : Log → Log
flush log = record log { flushed = length log.rows }

abbrev pub written : List String → (unflushed : ℤ) → Log → Log
written row unflushed log = record log { rows = log.rows ++ row ∷ []; unflushed = unflushed }

abbrev pub flush_if : (due : Bool) → Log → Log
flush_if due log = if due then record (flush log) { unflushed = pos 0 } else log

-- The write, and the flush that is due.
unfoldable pub write : (flush_every : ℤ) → List String → Log → Log
write flush_every row log =
    let unflushed = plus_one log.unflushed in
    flush_if (eqb_ℤ unflushed flush_every) (written row unflushed log)

module _ {F : Type 0} (floats : Floats F) where
  open floats use {general}

  -- fmt.Sprintf("%v", …); the text of a list or table is an argument.
  abbrev pub sprint : (compound : String) → Value F → String
  sprint compound nil = "<nil>"
  sprint compound other = compound
  sprint compound (bool true) = "true"
  sprint compound (bool false) = "false"
  sprint compound (int n) = itoa n
  sprint compound (int64 n) = itoa n
  sprint compound (float64 x) = general x
  sprint compound (string s) = s
  sprint compound (bytes s) =
      String.◌++◌ "[" (String.◌++◌ (join " " (map (λ b. itoa (pos b)) (utf8 s))) "]")

  -- The fields of the record; none: the goroutine returns.
  unfoldable pub row_of :
      (ts compound : String) → LoggerT → GeneralMsg (Value F) → Outcome (Option (List String))
  row_of ts compound l ev =
      if l.key == ""
      then done (some (ts ∷ ev.topic ∷ "" ∷ sprint compound ev.payload ∷ "" ∷ []))
      else (do
        field ← field_of floats l.key ev.payload
        elim field [
          | none ↦ done none
          | some v ↦ done (some (ts ∷ ev.topic ∷ l.key ∷ sprint compound v ∷ "" ∷ []))
        ])

  -- A message on the channel; none: the goroutine has returned.
  unfoldable pub log_message :
      (ts compound : String) → LoggerT → GeneralMsg (Value F) → Log → Outcome (Option Log)
  unfolding row_of write
  log_message ts compound l ev log = do
    row ← row_of ts compound l ev
    elim row [ none ↦ done none | some fields ↦ done (some (write l.flush_every fields log)) ]

  -- The goroutine: the messages that come, each with the time and the text of a list or table.
  unfoldable pub log_messages :
      LoggerT → List (String × String × GeneralMsg (Value F)) → Log → Outcome (Option Log)
  unfolding log_message
  log_messages l [] log = done (some log)
  log_messages l ((ts, compound, ev) ∷ evs) log = do
    next ← log_message ts compound l ev log
    elim next [ none ↦ done none | some log' ↦ log_messages l evs log' ]

-- The files that can be opened; a logger of another only warns.
abbrev pub opened : (can_open : String → Bool) → List LoggerT → List (String × (LoggerT × Log))
opened can_open [] = []
opened can_open (l ∷ ls) =
    if can_open l.log_file
    then (l.topic, (l, record { rows = []; flushed = 0; unflushed = pos 0 })) ∷ opened can_open ls
    else opened can_open ls

module _ {P : Type 0} where
  pub start :
      (can_open : String → Bool) → List LoggerT → Mqtt P → List (Goroutine (LoggerT × Log)) × Mqtt P
  unfolding start_each
  start can_open ls mq = start_each {S = LoggerT × Log} (opened can_open ls) mq

  pub stop : List (Goroutine (LoggerT × Log)) → Mqtt P → Outcome (List (LoggerT × Log) × Mqtt P)
  unfolding stop_each
  stop gs mq = stop_each {S = LoggerT × Log} (λ s. (s.0, flush s.1)) gs mq
