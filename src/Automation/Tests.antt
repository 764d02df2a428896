-- ===== src/Automation/Tests.antt =====
-- The automations at concrete inputs. Whole numbers stand for floating-point numbers.
use mathlib.Core.List.{Perm}
use mathlib.Core.List.Perm
use aghast.Base.{
  ℕ, ◌≡◌, ◌≢◌, ◌↔◌, inr, refl, sym, String, Bool, true, false, if◌then◌else◌, ◌==◌,
  string_comparable, nat_comparable, eq_iff, arith, ltb, Option, none, some, List, [], ◌∷◌, ◌++◌,
  map, Assoc, lookup, lookup_or, insert, str_lt, Outcome, done, panicked,
}
use aghast.Base.Int.{ℤ, pos}
use aghast.Runtime.{Runtime, Value, bool, int64, string, bytes, as_bool}
use aghast.Mqtt.{
  Mqtt, Call, GeneralMsg, subscribe_to_topic, subscribe_and_map, unsubscribe_from_topic,
  send_third_party, index_from,
}
use aghast.Automation.{Condition, Action, AutomationT}
use aghast.Automation.Testing.{check_payload, ask}
use aghast.Automation.Testing.Laws.{
  is_operator, Holds, check_payload_iff, int64_never_met, check_payload_panics,
}
use aghast.Automation.Testing.Cleanup.{ask-subs}
use aghast.Automation.Actions.{action_msg, on_event, with_sent, on_event_lem}
use aghast.Automation.Load.{
  Tree, get, keys, load_file, load_actions, finish, sort_strings, insert_sorted,
}
use aghast.Automation.Load.Order.{IsSorted}
use aghast.Automation.Load.Loaded.{load_file_lem, load_file_order}

abbrev read_object : String → Option (Assoc (Value ℕ))
read_object s = if s == "{\"state\": \"ON\"}" then some (("state", string "ON") ∷ []) else none

abbrev list_text : List (String × String × Bool) → String
list_text l = "[]"

abbrev equal : ℕ → ℕ → Bool
equal a b = a == b

abbrev whole : Runtime
whole = record {
  Float = ℕ;
  float_zero = 0;
  float_lt = ltb;
  float_eq = equal;
  unmarshal = read_object;
  marshal_list = list_text;
}

abbrev quiet_mq : Mqtt (Value ℕ)
quiet_mq = record {
  publish_chan = [];
  third_party_chan = [];
  subs = [];
  inbound = [];
  base_topic = "aghast";
  calls = [];
  fan_outs = [];
}

abbrev state_on : Condition ℕ
state_on = record {
  query_topic = "";
  reply_topic = "";
  payload = "";
  key = "state";
  is = "=";
  value = string "ON";
}

abbrev state_key : String
state_key = "state"

keyed : state_key ≢ ""
keyed e = let same : (state_key == "") ≡ true = (eq_iff state_key "").1 e in absurd (cc)

check_payload_iff_example :
    ((check_payload whole state_on (bytes "{\"state\": \"ON\"}") ≡ done true)
      ↔ Holds whole "=" (string "ON") (string "ON"))
    × ((n : ℤ)
        → state_on.value ≡ int64 n
        → check_payload whole state_on (bytes "{\"state\": \"ON\"}") ≢ done true)
    × (is_operator state_on.is ≡ false
        → ((b : Bool) → state_on.value ≢ bool b)
        → check_payload whole state_on (bytes "{\"state\": \"ON\"}") ≢ done true)
unfolding lookup
check_payload_iff_example =
    check_payload_iff whole state_on "{\"state\": \"ON\"}" (("state", string "ON") ∷ [])
      (string "ON") keyed refl refl

int64_never_met_instance :
    check_payload whole (record state_on { value = int64 (pos 3) }) (bytes "{\"state\": \"ON\"}")
    ≢ done true
int64_never_met_instance =
    int64_never_met whole (record state_on { value = int64 (pos 3) }) (pos 3)
      (bytes "{\"state\": \"ON\"}") refl

check_payload_panics_example : check_payload whole state_on (bytes "ON") ≡ panicked
check_payload_panics_example = check_payload_panics whole state_on "ON" (inr (keyed, refl))

-- A condition that asks, and is not answered in time.
abbrev asking : Condition ℕ
asking = record state_on { query_topic = "meter/get"; reply_topic = "meter" }

abbrev no_answer : ℕ → Mqtt (Value ℕ) → Mqtt (Value ℕ) × Option (GeneralMsg (Value ℕ))
no_answer ch mq = (mq, none)

abbrev asked : Outcome (Bool × Mqtt (Value ℕ))
asked = ask whole asking no_answer quiet_mq

abbrev after_asking : Mqtt (Value ℕ)
after_asking = record quiet_mq {
  third_party_chan =
      record { topic = "meter/get"; qos = 0; retained = false; payload = string "" } ∷ [];
  subs = ("meter", []) ∷ [];
  inbound = [] ∷ [];
  calls = Mqtt.calls (subscribe_to_topic "meter" quiet_mq).0 ++ Call.unsubscribe "meter" ∷ [];
  fan_outs = "meter" ∷ [];
}

unanswered : ask whole asking no_answer quiet_mq ≡ done (false, after_asking)
unfolding ask send_third_party subscribe_to_topic subscribe_and_map unsubscribe_from_topic lookup
    lookup_or insert index_from
unanswered = refl

ask-subs_example :
    Perm (lookup_or [] "meter" after_asking.subs) (lookup_or [] "meter" quiet_mq.subs)
ask-subs_example =
    ask-subs whole asking no_answer quiet_mq after_asking false (λ ch m. refl) unanswered "meter"

abbrev lights : AutomationT ℕ
lights = record {
  name = "Lights";
  description = "Lights at dusk";
  enabled = true;
  event_topic = "aghast/time/events/Dusk";
  condition = none;
  actions = ("a", record { topic = "lamp/set"; payload = "ON" }) ∷ [];
  sorted_action_keys = "a" ∷ [];
  conf_filename = "lights.toml";
}

on_event_lem_example :
    on_event whole lights (bytes "") no_answer quiet_mq
    ≡ done (with_sent quiet_mq (map (action_msg lights) ("a" ∷ [])))
on_event_lem_example =
    on_event_lem whole lights (bytes "") no_answer quiet_mq quiet_mq true refl (omega arith)

abbrev action : Assoc (Value ℕ)
action = ("Topic", string "lamp/set") ∷ ("Payload", string "ON") ∷ []

abbrev file_with : Assoc (Assoc (Value ℕ)) → Tree ℕ
file_with tables = record {
  fields =
      ("Name", string "Lights")
      ∷ ("Description", string "Lights at dusk")
      ∷ ("Enabled", bool true)
      ∷ ("EventTopic", string "aghast/time/events/Dusk")
      ∷ [];
  actions = some tables;
}

abbrev two_tables : Assoc (Assoc (Value ℕ))
two_tables = ("2", action) ∷ ("1", action) ∷ []

abbrev two_tables_again : Assoc (Assoc (Value ℕ))
two_tables_again = ("1", action) ∷ ("2", action) ∷ []

abbrev lamp_action : Action
lamp_action = record { topic = "lamp/set"; payload = "ON" }

abbrev lights_with : Assoc Action → AutomationT ℕ
lights_with acts = record lights { actions = acts; sorted_action_keys = "1" ∷ "2" ∷ [] }

abbrev lights_21 : AutomationT ℕ
lights_21 = lights_with (("2", lamp_action) ∷ ("1", lamp_action) ∷ [])

abbrev lights_12 : AutomationT ℕ
lights_12 = lights_with (("1", lamp_action) ∷ ("2", lamp_action) ∷ [])

loads_21 : load_file "lights.toml" (file_with two_tables) ≡ done (some lights_21)
unfolding load_file finish load_actions sort_strings insert_sorted lookup lookup_or insert str_lt
loads_21 = refl

loads_12 : load_file "lights.toml" (file_with two_tables_again) ≡ done (some lights_12)
unfolding load_file finish load_actions sort_strings insert_sorted lookup lookup_or insert str_lt
loads_12 = refl

abbrev one_label : String
one_label = "1"

abbrev two_label : String
two_label = "2"

labels_differ : two_label ≢ one_label
labels_differ e =
    let same : (two_label == one_label) ≡ true = (eq_iff two_label one_label).1 e in absurd (cc)

load_file_lem_example :
    (as_bool (get "Enabled" (file_with two_tables)) ≡ done true)
    × (lights_21.enabled ≡ true)
    × IsSorted lights_21.sorted_action_keys
    × Perm lights_21.sorted_action_keys (keys two_tables)
load_file_lem_example =
    load_file_lem "lights.toml" (file_with two_tables) two_tables lights_21 refl
      ((labels_differ, tt), (tt, tt)) loads_21

load_file_order_instance : lights_21.sorted_action_keys ≡ lights_12.sorted_action_keys
load_file_order_instance =
    load_file_order "lights.toml" "lights.toml" (file_with two_tables) (file_with two_tables_again)
      two_tables two_tables_again lights_21 lights_12 refl refl (Perm.swap "1" "2" [])
      ((labels_differ, tt), (tt, tt)) (((λ e. labels_differ (sym e)), tt), (tt, tt)) loads_21
      loads_12
