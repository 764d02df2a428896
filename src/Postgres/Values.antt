-- ===== src/Postgres/Values.antt =====
-- Which statements a logger of integers sends for JSON numbers.
use aghast.Base.{
  ◌≡◌, refl, ap, ◌∙◌, String, Bool, true, false, Option, none, some, List, [], ◌∷◌, map, All,
  if◌then◌else◌, string_comparable, itoa, Outcome, done, ◌>>=◌, Bool-cases, inl, inr,
}
use aghast.Runtime.{Value, float64}
use aghast.Mqtt.{GeneralMsg}
use aghast.Loggers.{Floats}
use aghast.Loggers.Extraction.{taken, or_panics, value_of-bytes, arrived}
use aghast.Postgres.{
  LoggerT, Database, insert_value, integer_of, integer_sql, statement, run_statement, log_message,
  log_messages,
}

module _ {F : Type 0} (floats : Floats F) (db : Database) (id : String) (l : LoggerT) where
  open floats use {round}
  open db use {State, exec}

  -- A message whose value is this number, for a logger of integers.
  abbrev pub Reads : GeneralMsg String → F → Type 0
  Reads msg x = taken floats l.key msg.payload ≡ some (float64 x)

  abbrev pub insert_integer : F → String
  insert_integer x = insert_value "logged_integers" "int_val" id (itoa (round x))

  abbrev after : State → Bool → Option (Value F) → Outcome (Option (State × Bool))
  after s err value = elim value [
    | none ↦ done none
    | some v ↦
        (statement floats id l.data_type err v >>= λ sql.
        done (some (run_statement floats db sql s)))
  ]

  log_message-number :
      (msg : GeneralMsg String) (x : F) (s : State) (err : Bool)
      → l.data_type ≡ "integer"
      → Reads msg x
      → log_message floats db id l (arrived msg) (s, err)
        ≡ done (some (run_statement floats db (integer_sql floats id (some (round x), err)) s))
  unfolding log_message statement integer_of
  log_message-number msg x s err integers reads =
      ap (λ o. o >>= after s err) (value_of-bytes floats l.key msg.payload)
      ∙ ap (λ v. or_panics floats v >>= after s err) reads
      ∙ rw integers refl

  -- Once `err` is set, a JSON number is dropped.
  log_messages_silent :
      (msgs : List (GeneralMsg String × F)) (s : State)
      → l.data_type ≡ "integer"
      → All (λ (msg, x). Reads msg x) msgs
      → log_messages floats db id l (map (λ (msg, x). arrived msg) msgs) (s, true)
        ≡ done (some (s, true))
  unfolding log_messages
  log_messages_silent [] s integers reads = refl
  log_messages_silent ((msg, x) ∷ msgs) s integers (read, reads) =
      rw (log_message-number msg x s true integers read) (log_messages_silent msgs s integers reads)

  -- The statements up to the first that fails; true: one has failed.
  abbrev pub inserts : List (GeneralMsg String × F) → State → State × Bool
  inserts [] s = (s, false)
  inserts ((msg, x) ∷ msgs) s =
      let (s', inserted) = exec (insert_integer x) s in
      let rest = inserts msgs s' in if inserted then rest else (s', true)

  -- A logger of integers, on messages that hold JSON numbers, inserts the rounded numbers one after
  -- the other until the database reports an error, and none of those that come later.
  pub log_messages-inserts :
      (msgs : List (GeneralMsg String × F)) (s : State)
      → l.data_type ≡ "integer"
      → All (λ (msg, x). Reads msg x) msgs
      → log_messages floats db id l (map (λ (msg, x). arrived msg) msgs) (s, false)
        ≡ done (some (inserts msgs s))
  unfolding log_messages
  log_messages-inserts [] s integers reads = refl
  log_messages-inserts ((msg, x) ∷ msgs) s integers (read, reads) =
      let s' = (exec (insert_integer x) s).0 in
      rw (log_message-number msg x s false integers read)
        (elim (Bool-cases (exec (insert_integer x) s).1) [
          | inl e ↦ rw e (log_messages-inserts msgs s' integers reads)
          | inr e ↦ rw e (log_messages_silent msgs s' integers reads)
        ])
