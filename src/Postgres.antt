-- ===== src/Postgres.antt =====
-- integrations/postgres/postgres.go. Reading and decoding the TOML file is left to the caller of
-- `load_config`. The database is not part of the repository: it is a state with the answers to the
-- statements that the code sends it.
pub mod Names
pub mod Values
mod Tests
use Prim.Native.String
use aghast.Base.{
  ℕ, String, Bool, true, false, not, Option, none, some, List, [], ◌∷◌, map, if◌then◌else◌, ◌==◌,
  string_comparable, itoa, atoi, Outcome, done, fatal, panicked, ◌>>=◌,
}
use aghast.Base.Int.{ℤ, pos}
use aghast.Runtime.{Value, nil, other, bool, int, int64, float64, string, bytes, as_string}
use aghast.Mqtt.{Mqtt, GeneralMsg, subscribe_to_topic, unsubscribe_from_topic}
use aghast.Loggers.{Floats, value_of, Goroutine, stop_each}

pub record LoggerT : Type 0 where
  pub name : String
  pub topic : String
  pub key : String
  pub data_type : String

-- none: the file cannot be decoded, or an error of the preprocessing is returned.
pub load_config :
    (preprocessed : Option String)
    → (decode : String → Option (List LoggerT)) → Outcome (Option (List LoggerT))
load_config none decode = done none
load_config (some text) decode = elim (decode text) [ none ↦ fatal | some ls ↦ done (some ls) ]

-- QueryRow(…).Scan(&nameID): the number, pgx.ErrNoRows, or another error.
pub data Answer : Type 0 where
  row : ℤ → Answer
  no_rows failed : Answer

pub record Database : Type 1 where
  pub State : Type 0
  pub query_row : String → State → Answer
  pub exec : String → State → State × Bool  -- true: no error

abbrev pub select_sql : LoggerT → String
select_sql l = String.◌++◌ "SELECT id FROM names WHERE name = '" (String.◌++◌ l.name "'")

abbrev pub insert_sql : LoggerT → String
insert_sql l =
    String.◌++◌ "INSERT INTO names(id, name, topic) VALUES(DEFAULT, '"
      (String.◌++◌ l.name (String.◌++◌ "', '" (String.◌++◌ l.topic "')")))

module _ (db : Database) where
  open db use {State, query_row, exec}

  abbrev pub id_or_error : Answer → Option ℤ
  id_or_error (row n) = some n
  id_or_error _ = none

  -- The id for the logger's name; none: the goroutine returns.
  unfoldable pub name_id : LoggerT → State → State × Option ℤ
  name_id l s = elim (query_row (select_sql l) s) [
    | row n ↦ (s, some n)
    | failed ↦ (s, none)
    | no_rows ↦
        let (s', inserted) = exec (insert_sql l) s in
        if inserted then (s', id_or_error (query_row (select_sql l) s')) else (s', none)
  ]

abbrev pub insert_value : (table column id value : String) → String
insert_value table column id value = String.◌++◌ "INSERT INTO " (
    String.◌++◌ table (
      String.◌++◌ "(id, ts, " (
        String.◌++◌ column (
          String.◌++◌ ") VALUES( "
            (String.◌++◌ id (String.◌++◌ ", NOW(), " (String.◌++◌ value ")")))))))

module _ {F : Type 0} (floats : Floats F) where
  open floats use {parse_float, zero_float, round, fixed}

  -- The number, if it can be read, and whether `err` is set afterwards. The variable is the
  -- goroutine's: a number of JSON leaves it as it was.
  unfoldable pub float_of : (err : Bool) → Value F → Option F × Bool
  float_of err (float64 x) = (some x, err)
  float_of err (string s) = elim (parse_float s) [ none ↦ (none, true) | some x ↦ (some x, false) ]
  float_of err _ = (some zero_float, err)

  unfoldable pub integer_of : (err : Bool) → Value F → Option ℤ × Bool
  integer_of err (int n) = (some n, err)
  integer_of err (int64 n) = (some n, err)
  integer_of err (float64 x) = (some (round x), err)
  integer_of err (string s) = elim (atoi s) [ none ↦ (none, true) | some n ↦ (some n, false) ]
  integer_of err _ = (none, true)

  abbrev pub float_sql : (id : String) → Option F × Bool → Option String × Bool
  float_sql id (none, err) = (none, err)
  float_sql id (some x, err) = (some (insert_value "logged_floats" "float_val" id (fixed x)), err)

  -- `if err != nil` comes behind the inner switch.
  abbrev pub integer_sql : (id : String) → Option ℤ × Bool → Option String × Bool
  integer_sql id (none, err) = (none, err)
  integer_sql id (some n, err) =
      (if err then none else some (insert_value "logged_integers" "int_val" id (itoa n)), err)

  -- The switch on the type: the statement, none where the next message is taken instead.
  unfoldable pub statement :
      (id data_type : String) → (err : Bool) → Value F → Outcome (Option String × Bool)
  unfolding float_of integer_of
  statement id data_type err v =
      if data_type == "float"
      then done (float_sql id (float_of err v))
      else if data_type == "integer"
      then done (integer_sql id (integer_of err v))
      else if data_type == "string"
      then (as_string v >>= λ s. done (some (insert_value "logged_strings" "string_val" id s), err))
      else done (none, err)

  module _ (db : Database) where
    open db use {State, exec}

    -- An error of the database is a warning, and is kept in `err`.
    abbrev pub run_statement : Option String × Bool → State → State × Bool
    run_statement (none, err) s = (s, err)
    run_statement (some sql, err) s = let (s', inserted) = exec sql s in (s', not inserted)

    -- A message on the channel, with the database and `err`; none: the goroutine has returned.
    unfoldable pub log_message :
        (id : String)
        → LoggerT
        → GeneralMsg (Value F)
        → State × Bool
        → Outcome (Option (State × Bool))
    unfolding statement
    log_message id l msg (s, err) = do
      value ← value_of floats l.key msg.payload
      elim value [
        | none ↦ done none
        | some v ↦ (statement id l.data_type err v >>= λ sql. done (some (run_statement sql s)))
      ]

    -- The goroutine, which keeps the id that it found when it began.
    unfoldable pub log_messages :
        (id : String)
        → LoggerT
        → List (GeneralMsg (Value F))
        → State × Bool
        → Outcome (Option (State × Bool))
    unfolding log_message
    log_messages id l [] s = done (some s)
    log_messages id l (msg ∷ msgs) s = do
      next ← log_message id l msg s
      elim next [ none ↦ done none | some s' ↦ log_messages id l msgs s' ]

module _ {P : Type 0} (db : Database) where
  open db use {State}

  -- The goroutines' beginnings, one after the other: the subscription, and the id; without an id the
  -- deferred call unsubscribes at once.
  unfoldable pub start_loggers :
      List LoggerT → State → Mqtt P → Outcome (List (Goroutine (LoggerT × String)) × State × Mqtt P)
  unfolding name_id
  start_loggers [] s mq = done ([], s, mq)
  start_loggers (l ∷ ls) s mq =
      let (subscribed, ch) = subscribe_to_topic l.topic mq in
      let (s', id) = name_id db l s in
      elim id [
        | none ↦ (do left ← unsubscribe_from_topic l.topic ch subscribed; start_loggers ls s' left)
        | some n ↦ (do
          (others, last, left) ← start_loggers ls s' subscribed
          let g : Goroutine (LoggerT × String) = record {
            topic = l.topic;
            ch = ch;
            own = (l, itoa n);
          }
          done (g ∷ others, last, left))
      ]

  -- The mutex stays locked when the connection fails.
  pub start :
      (connected : Bool)
      → List LoggerT
      → State
      → Mqtt P
      → Outcome (List (Goroutine (LoggerT × String)) × State × Mqtt P × Bool)
  unfolding start_loggers
  start false ls s mq = done ([], s, mq, true)
  start true ls s mq = do (gs, s', left) ← start_loggers ls s mq; done (gs, s', left, false)

  -- Without a connection the pool is nil, and closing it panics.
  pub stop : (connected : Bool) → List (Goroutine (LoggerT × String)) → Mqtt P → Outcome (Mqtt P)
  unfolding stop_each
  stop connected gs mq = do
    (stopped, left) ← stop_each (λ own. own) gs mq
    if connected then done left else panicked
