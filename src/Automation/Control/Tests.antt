-- ===== src/Automation/Control/Tests.antt =====
-- The manager with one automation.
use aghast.Base.{
  some_inj, ℕ, zero, suc, ◌≡◌, ◌≢◌, refl, sym, ap, ◌∙◌, String, true, ◌==◌, string_comparable,
  eq_iff, Bool-cases, inl, inr, none, some, [], ◌∷◌, Assoc, get_elem?, lookup, insert, lookup_or,
  Option, List, done, blocked,
}
use aghast.Runtime.{Value, string, bool}
use aghast.Mqtt.{Mqtt}
use aghast.Automation.{AutomationT}
use aghast.Automation.Control.{
  load_config, Control, start, launch, launch_enabled, launch_monitor, toggle, change_enabled,
}
use aghast.Automation.Load.{
  Tree, load_files, load_file, finish, load_actions, index_names, sort_strings,
}
use aghast.Automation.Control.Loading.{load_config-IsIndexed}
use aghast.Automation.Control.Consistency.{IsIndexed, IsConsistent}
use aghast.Automation.Control.Starting.{start-IsConsistent}
use aghast.Automation.Control.Switching.{change_enabled-IsConsistent, change_enabled_unknown}

abbrev quiet_mq : Mqtt (Value ℕ)
quiet_mq = record {
  publish_chan = [];
  third_party_chan = [];
  subs = [];
  inbound = [];
  base_topic = "aghast";
  calls = [];
  fan_outs = [];
}

abbrev lights : AutomationT ℕ
lights = record {
  name = "Lights";
  description = "Lights at dusk";
  enabled = true;
  event_topic = "aghast/time/events/Dusk";
  condition = none;
  actions = [];
  sorted_action_keys = [];
  conf_filename = "lights.toml";
}

abbrev by_name : Assoc ℕ
by_name = ("Lights", 0) ∷ []

abbrev loaded : Control ℕ
loaded = record {
  automations = lights ∷ [];
  by_name = by_name;
  stop_chans = [];
  running = [];
  next_chan = 0;
  rewritten = [];
  mq = quiet_mq;
}

abbrev started : Control ℕ
started = start quiet_mq loaded

only_lights :
    (name : String) (ix : ℕ) → lookup name by_name ≡ some ix → ("Lights" ≡ name) × (0 ≡ ix)
unfolding lookup
only_lights name ix h = elim (Bool-cases ("Lights" == name)) [
  | inl e ↦ ((eq_iff "Lights" name).0 e, some_inj (rw e at h))
  | inr e ↦ let never : none ≡ some ix = rw e at h in absurd (cc)
]

lights_indexed :
    (ix : ℕ) (auto : AutomationT ℕ)
    → get_elem? loaded.automations ix ≡ some auto
    → lookup auto.name by_name ≡ some ix
unfolding lookup
lights_indexed zero auto h = rw (← some_inj h) refl
lights_indexed (suc ix) auto h = absurd (cc)

loaded-IsIndexed : IsIndexed loaded
loaded-IsIndexed = record {
  indexed = lights_indexed;
  named = λ name ix h.
      let (called, first) = only_lights name ix h in rw (← first) (lights, refl, called);
}

abbrev monitor_name : String
monitor_name = "mqttMonitor"

abbrev first_index : ℕ
first_index = 0

abbrev lights_name : String
lights_name = "Lights"

monitor_free :
    (ix : ℕ) (a : AutomationT ℕ) → get_elem? loaded.automations ix ≡ some a → monitor_name ≢ a.name
monitor_free (suc ix) a h e = absurd (cc)
monitor_free zero a h e =
    let called : lights_name ≡ a.name = ap AutomationT.name (some_inj h) in
    let same : (monitor_name == lights_name) ≡ true =
      (eq_iff monitor_name lights_name).1 (e ∙ sym called) in
    absurd (cc)

start-IsConsistent_example : IsConsistent (start quiet_mq loaded)
start-IsConsistent_example = start-IsConsistent quiet_mq loaded loaded-IsIndexed monitor_free refl

started-IsConsistent : IsConsistent started
started-IsConsistent = start-IsConsistent quiet_mq loaded loaded-IsIndexed monitor_free refl

change_enabled-IsConsistent_example :
    (s' : Control ℕ) × (auto : AutomationT ℕ) × (change_enabled "Lights" started ≡ done s')
    × (get_elem? started.automations 0 ≡ some auto)
    × (get_elem? s'.automations 0 ≡ some (toggle auto))
    × ((j : ℕ) → first_index ≢ j → get_elem? s'.automations j ≡ get_elem? started.automations j)
    × IsConsistent s'
unfolding start launch_enabled launch launch_monitor lookup insert
change_enabled-IsConsistent_example =
    change_enabled-IsConsistent "Lights" 0 started started-IsConsistent refl

change_enabled_unknown_example : change_enabled "Heating" started ≡ blocked
unfolding start launch_enabled launch launch_monitor lookup insert
change_enabled_unknown_example = change_enabled_unknown "Heating" lights [] started refl refl refl

abbrev lights_tree : Tree ℕ
lights_tree = record {
  fields =
      ("Name", string "Lights")
      ∷ ("Description", string "Lights at dusk")
      ∷ ("Enabled", bool true)
      ∷ ("EventTopic", string "aghast/time/events/Dusk")
      ∷ [];
  actions = some [];
}

abbrev lights_files : List (String × Option (Tree ℕ))
lights_files = ("lights.toml", some lights_tree) ∷ []

abbrev unloaded : Control ℕ
unloaded = record loaded { automations = []; by_name = [] }

loads : load_config (some lights_files) unloaded ≡ done (loaded, true)
unfolding load_config load_files load_file finish load_actions index_names sort_strings lookup
    lookup_or insert
loads = refl

load_config-IsIndexed_example : IsIndexed loaded
load_config-IsIndexed_example = load_config-IsIndexed lights_files unloaded loaded loads (tt, tt)
