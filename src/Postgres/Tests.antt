-- ===== src/Postgres/Tests.antt =====
-- The logger of Postgres at concrete inputs: a database that keeps the statements it was sent, and
-- refuses one when it has three of them. A floating-point number is a natural one.
use aghast.Base.{
  ℕ, ◌≡◌, refl, String, false, true, Option, none, some, List, [], ◌∷◌, ◌++◌, map, if◌then◌else◌,
  ◌==◌, string_comparable, Assoc, lookup, itoa, ltb, length, done,
}
use aghast.Base.Int.{pos}
use aghast.Runtime.{Value, float64}
use aghast.Mqtt.{GeneralMsg}
use aghast.Loggers.{Floats}
use aghast.Loggers.Extraction.{arrived}
use aghast.Postgres.{LoggerT, Database, row, no_rows, insert_sql, name_id, log_messages}
use aghast.Postgres.Names.{name_id_again}
use aghast.Postgres.Values.{Reads, inserts, log_messages-inserts}

abbrev parse : String → Option (Assoc (Value ℕ))
parse t = if t == "{\"set_temp\":21}" then some (("set_temp", float64 21) ∷ []) else none

abbrev floats : Floats ℕ
floats = record {
  unmarshal = parse;
  parse_float = λ t. none;
  zero_float = 0;
  round = λ x. pos x;
  general = λ x. itoa (pos x);
  fixed = λ x. itoa (pos x);
}

abbrev db : Database
db = record {
  State = List String;
  query_row = λ sql s. elim s [ [] ↦ no_rows | first ∷ rest ↦ row (pos 7) ];
  exec = λ sql s. if ltb (length s) 3 then (s ++ sql ∷ [], true) else (s, false);
}

abbrev set_temp : LoggerT
set_temp = record {
  name = "UnitTemp";
  topic = "office/controls";
  key = "set_temp";
  data_type = "integer";
}

abbrev named : List String
named = insert_sql set_temp ∷ []

made : name_id db set_temp [] ≡ (named, some (pos 7))
unfolding name_id
made = refl

name_id_again_example : name_id db set_temp named ≡ (named, some (pos 7))
name_id_again_example = name_id_again db set_temp [] named (pos 7) made

abbrev warmer : GeneralMsg String
warmer = record {
  topic = "office/controls";
  qos = 0;
  retained = false;
  payload = "{\"set_temp\":21}";
}

warmer-Reads : Reads floats db "7" set_temp warmer 21
unfolding lookup
warmer-Reads = refl

abbrev four : List (GeneralMsg String × ℕ)
four = (warmer, 21) ∷ (warmer, 21) ∷ (warmer, 21) ∷ (warmer, 21) ∷ []

-- The third is refused, and the fourth is not sent.
log_messages-inserts_example :
    log_messages floats db "7" set_temp (map (λ (msg, x). arrived msg) four) (named, false)
    ≡ done (some (inserts floats db "7" set_temp four named))
log_messages-inserts_example =
    log_messages-inserts floats db "7" set_temp four named refl
      (warmer-Reads, (warmer-Reads, (warmer-Reads, (warmer-Reads, tt))))
