-- ===== src/Server/Tests.antt =====
-- The manager of the integrations at concrete inputs.
use mathlib.Core.Path.{subst}
use aghast.Base.{
  ◌≡◌, refl, String, true, false, some, List, [], ◌∷◌, if◌then◌else◌, ◌==◌, string_comparable,
  arith, lookup, insert, done, done-injective, sym, ◌∙◌, panicked, blocked,
}
use aghast.Server.{
  stopped, handle_reload, Instances, handle_stop, stop_instance, at_rest, Server, loaded, started,
  listed, known_names, root_handler, daily_time_restart, start_integrations, start_each,
  new_integration, load_and_start,
}
use aghast.Server.Requests.{IsServing, stop-IsServing, reload-IsServing, stopped_clock}
use aghast.Server.Starting.{start_integrations-IsServing}

abbrev always : Instances
always = record {
  loads = λ name n. done true;
  starts = λ name n. true;
  stops = λ name n calls. done tt;
}

-- As `always`, but Stop of the automations waits for ever, and that of the database panics.
abbrev stubborn : Instances
stubborn = record always {
  stops = λ name n calls.
      if name == "automation" then blocked else if name == "postgres" then panicked else done tt;
}

abbrev configured : List String
configured = "time" ∷ "automation" ∷ []

configured_known : (x : String) → listed x configured ≡ true → listed x known_names ≡ true
configured_known x h = ground arith

start_integrations-IsServing_instance :
    (s : Server) × (start_integrations always configured ≡ done s)
    × IsServing s
    × (s.integrations ≡ configured)
start_integrations-IsServing_instance =
    start_integrations-IsServing always configured refl configured_known (λ name n h. (refl, refl))

abbrev both : Server
both = record {
  integs = ("time", 0) ∷ ("automation", 1) ∷ [];
  made = 2;
  integrations = configured;
  calls = started 1 ∷ loaded 1 ∷ started 0 ∷ loaded 0 ∷ [];
}

both_started : start_integrations always configured ≡ done both
unfolding start_integrations start_each new_integration load_and_start lookup insert
both_started = refl

both-IsServing : IsServing both
both-IsServing =
    let (s, returned, serving, same) =
      start_integrations-IsServing always configured refl configured_known
        (λ name n h. (refl, refl)) in
    subst IsServing (done-injective (sym returned ∙ both_started)) serving

stop-IsServing_example :
    (s' : Server) × (root_handler always "automation" "" both ≡ done s')
    × IsServing s'
    × ((x : String)
        → listed x s'.integrations ≡ (if "automation" == x then false else listed x configured))
stop-IsServing_example =
    stop-IsServing always "automation" both both-IsServing refl refl (λ n at. refl)

reload-IsServing_example :
    (s' : Server) × (root_handler always "" "time" both ≡ done s')
    × IsServing s'
    × (s'.integrations ≡ configured)
    × ((x : String) → lookup x s'.integs ≡ (if "time" == x then some 2 else lookup x both.integs))
reload-IsServing_example =
    reload-IsServing always "time" both both-IsServing refl refl (λ n at. refl) (refl, refl)

stopped_clock_example :
    (s' : Server) × (root_handler always "time" "" both ≡ done s')
    × (daily_time_restart always s' ≡ panicked)
stopped_clock_example = stopped_clock always both both-IsServing refl (λ n at. refl)

abbrev with_database : Server
with_database = record (at_rest ("time" ∷ "postgres" ∷ [])) {
  integs = ("time", 0) ∷ ("postgres", 1) ∷ [];
  made = 2;
}

stop_blocks : root_handler stubborn "automation" "" both ≡ blocked
unfolding root_handler handle_stop stop_instance lookup
stop_blocks = refl

-- The panic ends the request, and nothing is stopped or reloaded.
stop_panics : root_handler stubborn "postgres" "time" with_database ≡ done with_database
unfolding root_handler handle_stop stop_instance lookup
stop_panics = refl

-- LoadConfig of the automations panics.
abbrev careless : Instances
careless = record always { loads = λ name n. if name == "automation" then panicked else done true }

-- The old instance is stopped, and the new one is there but does not run.
load_panics :
    root_handler careless "" "automation" both
    ≡ done (record both {
      integs = ("time", 0) ∷ ("automation", 2) ∷ [];
      made = 3;
      calls = stopped 1 ∷ both.calls;
    })
unfolding root_handler handle_reload stop_instance new_integration load_and_start lookup insert
load_panics = refl
