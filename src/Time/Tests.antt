-- ===== src/Time/Tests.antt =====
-- The time integration at concrete inputs.
use aghast.Base.{
  ℕ, ◌≡◌, refl, String, true, ◌==◌, string_comparable, nat_comparable, if◌then◌else◌, List, [], ◌∷◌,
  map, Option, none, some, split, lookup, lookup_or, insert, Assoc, done, arith,
}
use aghast.Base.Int.{ℤ, pos}
use aghast.Time.{
  Clock, TimeEventT, Parsed, Reading, Last, time_of, add_alerts, load_config,
  get_hhmmss_from_string, tick_msgs,
}
use aghast.Time.Parsing.{get_hhmmss_from_string_seconds, get_hhmmss_from_string_ok}
use aghast.Time.Alerts.{alert, due_at, load_config_lem}
use aghast.Time.Tickers.{IsAhead, kept, described, tick_msgs_lem}

abbrev read_number : String → Option ℤ
read_number s = if s == "25" then some (pos 25) else if s == "30" then some (pos 30) else none

abbrev clock : Clock
clock = record {
  atoi = read_number;
  sunrise_at = λ offset. "06:30:00";
  sunset_at = λ offset. "18:30:00";
  itoa = λ n. "7";
}

abbrev dusk : TimeEventT
dusk = record { name = "Dusk"; hhmmss = ""; daily = "Sunset"; offset_mins = pos 0 }

abbrev alerts : Assoc (List TimeEventT)
alerts = ("18:30:00", alert "18:30:00" dusk ∷ []) ∷ []

loaded : load_config clock (some (dusk ∷ [])) ≡ done (some alerts)
unfolding load_config add_alerts time_of lookup lookup_or insert
loaded = refl

load_config_lem_example :
    lookup_or [] "18:30:00" alerts ≡ map (alert "18:30:00") (due_at clock "18:30:00" (dusk ∷ []))
load_config_lem_example = load_config_lem clock "18:30:00" (dusk ∷ []) alerts loaded

get_hhmmss_from_string_seconds_instance :
    get_hhmmss_from_string clock "07:30:15" ≡ get_hhmmss_from_string clock "07:30:xx"
unfolding split
get_hhmmss_from_string_seconds_instance =
    get_hhmmss_from_string_seconds clock "07:30:15" "07:30:xx" refl refl

get_hhmmss_from_string_ok_instance :
    (p : Parsed) × (get_hhmmss_from_string clock "25:30:00" ≡ done p) × (p.ok ≡ true)
unfolding split
get_hhmmss_from_string_ok_instance =
    get_hhmmss_from_string_ok clock "25:30:00" "25" "30" (pos 25) (pos 30) refl refl refl refl

abbrev noon : Reading
noon = record { second = 0; minute = 0; hour = 12; day = 3 }

abbrev before_noon : Last
before_noon = record { minute = 59; hour = 11; day = 3 }

noon-IsAhead : IsAhead noon before_noon
noon-IsAhead = record {
  of_hour = λ new same. absurd (omega arith);
  of_day = λ new same. absurd (omega arith);
}

tick_msgs_lem_example :
    tick_msgs {F = ℕ} clock noon before_noon ≡ (described clock noon before_noon, kept noon)
tick_msgs_lem_example = tick_msgs_lem clock noon before_noon noon-IsAhead
