-- ===== src/Server.antt =====
-- server/integrationManager.go. An instance of an integration is its number; what the manager asks of
-- the instances is the list `calls`, the newest first. How an instance takes a call is an argument.
-- Writing the page is left out.
pub mod Removing
pub mod Serving
pub mod Requests
pub mod Starting
mod Tests
use aghast.Base.{
  ℕ, zero, suc, ◌+◌, String, Bool, true, false, Option, none, some, List, [], ◌∷◌, ◌++◌, ◌&&◌,
  if◌then◌else◌, ◌==◌, string_comparable, nat_comparable, Assoc, lookup, insert, erase, get_elem?,
  length, take, Outcome, done, panicked, fatal, blocked, ◌>>=◌,
}

pub data Call : Type 0 where
  loaded : ℕ → Call
  started : ℕ → Call
  stopped : ℕ → Call

-- The package's variables, and how many instances were made.
pub record Server : Type 0 where
  pub integs : Assoc ℕ
  pub made : ℕ
  pub integrations : List String
  pub calls : List Call

-- What the manager sees of the instances, by name and number: how LoadConfig ends, and whether
-- without an error; whether
-- Start, which is a goroutine of its own, goes on without a panic; and how Stop ends, with the calls
-- made before.
pub record Instances : Type 0 where
  pub loads : (name : String) → (instance_no : ℕ) → Outcome Bool
  pub starts : (name : String) → (instance_no : ℕ) → Bool
  pub stops : (name : String) → (instance_no : ℕ) → List Call → Outcome (Unit {0})

abbrev pub listed : String → List String → Bool
listed name [] = false
listed name (x ∷ xs) = if x == name then true else listed name xs

abbrev pub known_names : List String
known_names =
    "automation" ∷ "datalogger" ∷ "hostchecker" ∷ "influx" ∷ "mqtt2smtp" ∷ "mqttcache"
    ∷ "mqttsender" ∷ "postgres" ∷ "scraper" ∷ "time" ∷ "tuya" ∷ []

unfoldable pub new_integration : String → Server → Outcome Server
new_integration name s =
    if listed name known_names
    then done (record s { integs = insert name s.made s.integs; made = s.made + 1 })
    else fatal

-- A method of a nil interface panics. An instance whose Stop has not returned counts as running.
unfoldable pub stop_instance : Instances → String → Server → Outcome Server
stop_instance instances name s = elim (lookup name s.integs) [
  | none ↦ panicked
  | some n ↦ instances.stops name n s.calls >>= λ _. done (record s { calls = stopped n ∷ s.calls })
]

abbrev pub drop : {A : Type 0} → ℕ → List A → List A
drop zero xs = xs
drop (suc n) [] = []
drop (suc n) (x ∷ xs) = drop n xs

-- The loop that takes a name out of the configured ones. It runs over the positions of the list as it
-- was, k of which are left; what is behind the shortened list is "", which is no name.
unfoldable pub remove_from : (k ix : ℕ) → String → List String → List String
remove_from zero ix name xs = xs
remove_from (suc k) ix name xs = elim (get_elem? xs ix) [
  | none ↦ remove_from k (ix + 1) name xs
  | some x ↦
      if x == name
      then remove_from k (ix + 1) name (take ix xs ++ drop (ix + 1) xs)
      else remove_from k (ix + 1) name xs
]

abbrev pub at_rest : List String → Server
at_rest integrations = record { integs = []; made = 0; integrations = integrations; calls = [] }

-- net/http takes a panic of a handler, which then goes no further.
abbrev pub recovered : Server → Outcome Server → Outcome Server
recovered s (done s') = done s'
recovered s panicked = done s
recovered s fatal = fatal
recovered s blocked = blocked

module _ (instances : Instances) where
  open instances use {loads, starts}

  -- The request to stop an integration.
  unfoldable pub handle_stop : String → Server → Outcome Server
  unfolding stop_instance remove_from
  handle_stop name s = do
    s' ← stop_instance instances name s
    done (record s' {
      integs = erase name s'.integs;
      integrations = remove_from (length s'.integrations) 0 name s'.integrations;
    })

  -- LoadConfig, and the goroutine Start, whose panic ends the program: nothing can take it.
  unfoldable pub load_and_start : String → Server → Outcome Server
  load_and_start name s = elim (lookup name s.integs) [
    | none ↦ panicked
    | some n ↦ (do
      ok ← loads name n
      if ok && starts name n
          then done (record s { calls = started n ∷ loaded n ∷ s.calls })
          else fatal)
  ]

  -- The request to reload an integration; the clock's is reloaded in the same way every day.
  unfoldable pub handle_reload : String → Server → Outcome Server
  unfolding stop_instance new_integration load_and_start
  handle_reload name s = do
    s' ← stop_instance instances name s
    fresh ← new_integration name s'
    load_and_start name fresh

  -- What a reload has done when Stop, or LoadConfig of the new instance, panics.
  abbrev pub left_by_reload : String → Server → Server
  left_by_reload name s = elim (stop_instance instances name s) [
    | done s' ↦ elim (new_integration name s') [ done fresh ↦ fresh | _ ↦ s' ]
    | _ ↦ s
  ]

  -- The form's values of a request to the page: an empty one is absent. Stop, of which nothing comes
  -- before, and LoadConfig are the calls of the handler that can panic.
  unfoldable pub root_handler : (stop reload : String) → Server → Outcome Server
  unfolding handle_stop handle_reload
  root_handler stop reload s = elim (if stop == "" then done s else handle_stop stop s) [
    | done s' ↦
        recovered (left_by_reload reload s')
          (if reload == "" then done s' else handle_reload reload s')
    | panicked ↦ done s
    | fatal ↦ fatal
    | blocked ↦ blocked
  ]

  -- A round of dailyTimeRestart.
  unfoldable pub daily_time_restart : Server → Outcome Server
  unfolding handle_reload
  daily_time_restart s = handle_reload "time" s

  unfoldable pub start_each : List String → Server → Outcome Server
  unfolding new_integration load_and_start
  start_each [] s = done s
  start_each (i ∷ is) s = do
    fresh ← new_integration i s
    running ← load_and_start i fresh
    start_each is running

  unfoldable pub start_integrations : List String → Outcome Server
  unfolding start_each
  start_integrations integrations = start_each integrations (at_rest integrations)
