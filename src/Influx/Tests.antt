-- ===== src/Influx/Tests.antt =====
-- The logger of Influx at concrete inputs; a floating-point number is a natural one.
use aghast.Base.{
  join, ℕ, ◌≡◌, refl, String, false, Option, none, some, [], ◌∷◌, map, if◌then◌else◌, ◌==◌,
  string_comparable, Assoc, lookup, itoa, arith, done,
}
use aghast.Base.Int.{pos, negsuc}
use aghast.Runtime.{Value, float64}
use aghast.Mqtt.{GeneralMsg}
use aghast.Loggers.{Floats}
use aghast.Loggers.Extraction.{arrived}
use aghast.Influx.{
  LoggerT, float, integer, Point, Written, add_point, float_of, log_message, log_messages,
}
use aghast.Influx.Readings.{read, unread, reading, Readings, log_messages-Readings}
use aghast.Influx.Points.{log_messages_lem, integer_text, json_integer_zero}

-- The one JSON object of these tests.
abbrev parse : String → Option (Assoc (Value ℕ))
parse t = if t == "{\"power\":7}" then some (("power", float64 7) ∷ []) else none

abbrev floats : Floats ℕ
floats = record {
  unmarshal = parse;
  parse_float = λ t. none;
  zero_float = 0;
  round = λ x. pos x;
  general = λ x. itoa (pos x);
  fixed = λ x. itoa (pos x);
}

abbrev power : LoggerT
power = record { name = "house"; topic = "meter"; key = "power"; data_type = "float" }

abbrev whole_power : LoggerT
whole_power = record power { data_type = "integer" }

abbrev level : LoggerT
level = record { name = "house"; topic = "level"; key = ""; data_type = "integer" }

abbrev seven : GeneralMsg String
seven = record { topic = "meter"; qos = 0; retained = false; payload = "{\"power\":7}" }

abbrev minus_twelve : GeneralMsg String
minus_twelve = record { topic = "level"; qos = 0; retained = false; payload = "-12" }

abbrev nothing : Written ℕ
nothing = record { points = []; flushes = 0 }

abbrev point : Point ℕ
point = record { name = "house"; event_name = "meter/power"; field = float 7 }

log_messages_lem_instance :
    log_messages floats power (map arrived (seven ∷ seven ∷ [])) nothing
    ≡ done (some (record { points = point ∷ point ∷ []; flushes = 0 }))
unfolding lookup float_of
log_messages_lem_instance = log_messages_lem floats power (seven ∷ seven ∷ []) nothing

minus_twelve_text : "-12" ≡ itoa (negsuc 11)
unfolding itoa
minus_twelve_text = refl

integer_text_example :
    log_message floats level (arrived minus_twelve) nothing
    ≡ done (some (add_point level (some (integer (negsuc 11))) nothing))
integer_text_example =
    integer_text floats level (negsuc 11) minus_twelve nothing refl refl (omega arith)
      minus_twelve_text

seven_field : lookup {V = Value ℕ} "power" (("power", float64 7) ∷ []) ≡ some (float64 7)
unfolding lookup
seven_field = refl

json_integer_zero_instance :
    log_message floats whole_power (arrived seven) nothing
    ≡ done (some (add_point whole_power (some (integer (pos 0))) nothing))
json_integer_zero_instance =
    json_integer_zero floats whole_power 7 seven nothing refl refl seven_field

abbrev digits_known : String → Option ℕ
digits_known t = if t == "9" then some 9 else none

abbrev floats_of_text : Floats ℕ
floats_of_text = record floats { parse_float = digits_known }

abbrev level_float : LoggerT
level_float = record level { data_type = "float" }

abbrev level_msg : String → GeneralMsg String
level_msg payload = record minus_twelve { payload = payload }

abbrev nine : Point ℕ
nine = record { name = "house"; event_name = "level"; field = float 9 }

log_messages-Readings_example :
    log_messages floats_of_text level_float
      (map arrived (level_msg "high" ∷ level_msg "9" ∷ []))
      nothing
    ≡ done (some (record { points = nine ∷ []; flushes = 0 }))
unfolding join
log_messages-Readings_example =
    log_messages-Readings floats_of_text level_float (level_msg "high" ∷ level_msg "9" ∷ [])
      (9 ∷ []) nothing refl (reading (unread refl refl) (reading (read refl refl) Readings.nothing))
