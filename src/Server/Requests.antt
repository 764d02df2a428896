-- ===== src/Server/Requests.antt =====
-- The requests to stop and to reload an integration, and the daily restart (server/integrationManager.go).
use aghast.Base.{
  ℕ, ◌+◌, ◌≡◌, refl, ap, ◌∙◌, sym, arith, String, Bool, true, false, none, some, List, ◌∷◌, inl,
  inr, if◌then◌else◌, ◌==◌, nat_comparable, string_comparable, eq_iff, Assoc, lookup, insert, erase,
  lookup-insert, lookup-insert_self, lookup-erase, Bool-cases, Option-cases, done, panicked, ◌>>=◌,
}
use aghast.Server.{
  left_by_reload, recovered, Instances, Server, loaded, started, stopped, listed, known_names,
  new_integration, stop_instance, handle_stop, load_and_start, handle_reload, root_handler,
  daily_time_restart,
}
use aghast.Server.Removing.{
  distinct, without, remove_from-IsDistinct, listed-without, distinct-without,
}
use aghast.Server.Serving.{IsOwn, stopped-IsOwnBut, erase-IsOwn, insert-IsOwn}

abbrev pub has : String → Assoc ℕ → Bool
has x m = elim (lookup x m) [ none ↦ false | some n ↦ true ]

-- The configured names are distinct and known, the manager holds an instance for each of them and for
-- no other, and these are the instances that run.
pub record IsServing (s : Server) : Type 0 where
  pub names : distinct s.integrations ≡ true
  pub known : (x : String) → listed x s.integrations ≡ true → listed x known_names ≡ true
  pub agrees : (x : String) → listed x s.integrations ≡ has x s.integs
  pub instances : IsOwn s.integs s.made s.calls

-- The state with a new instance of the name, which is loaded and started.
abbrev pub begun : String → Server → Server
begun name s = record s {
  integs = insert name s.made s.integs;
  made = s.made + 1;
  calls = started s.made ∷ loaded s.made ∷ s.calls;
}

pub has-insert :
    (name x : String) (n : ℕ) (m : Assoc ℕ)
    → has x (insert name n m) ≡ (if name == x then true else has x m)
has-insert name x n m = elim (Bool-cases (name == x)) [
  | inl e ↦ rw (has, lookup-insert, e) refl
  | inr e ↦ rw (has, lookup-insert, e) refl
]

has-erase :
    (name x : String) (m : Assoc ℕ) → has x (erase name m) ≡ (if name == x then false else has x m)
has-erase name x m = elim (Bool-cases (name == x)) [
  | inl e ↦ rw (has, lookup-erase, e) refl
  | inr e ↦ rw (has, lookup-erase, e) refl
]

has-some : (x : String) (m : Assoc ℕ) → has x m ≡ true → (n : ℕ) × (lookup x m ≡ some n)
has-some x m h = elim (Option-cases (lookup x m)) [
  | inl e ↦ absurd (ground (arith, e))
  | inr found ↦ found
]

pub has-none : (x : String) (m : Assoc ℕ) → has x m ≡ false → lookup x m ≡ none
has-none x m h = elim (Option-cases (lookup x m)) [
  | inl e ↦ e
  | inr (n, e) ↦ absurd (ground (arith, e))
]

agrees-insert :
    (name x : String) (n : ℕ) (xs : List String) (m : Assoc ℕ)
    → listed name xs ≡ true
    → listed x xs ≡ has x m
    → listed x xs ≡ has x (insert name n m)
agrees-insert name x n xs m there agree = elim (Bool-cases (name == x)) [
  | inl e ↦
      ap (λ y. listed y xs) (sym ((eq_iff name x).0 e))
      ∙ there
      ∙ sym (has-insert name x n m ∙ rw e refl)
  | inr e ↦ agree ∙ sym (has-insert name x n m ∙ rw e refl)
]

-- Stop of the instance that the manager holds under the name returns.
abbrev pub StopReturns : Instances → String → Server → Type 0
StopReturns instances name s =
    (n : ℕ) → lookup name s.integs ≡ some n → instances.stops name n s.calls ≡ done tt

-- LoadConfig of this instance succeeds, and its Start does not end the program.
abbrev pub Begins : Instances → String → ℕ → Type 0
Begins instances name n = (instances.loads name n ≡ done true) × (instances.starts name n ≡ true)

module _ (instances : Instances) where
  pub begin-done :
      (name : String) (s : Server)
      → listed name known_names ≡ true
      → Begins instances name s.made
      → (new_integration name s >>= load_and_start instances name) ≡ done (begun name s)
  unfolding new_integration load_and_start
  begin-done name s known (load, start) =
      rw
        (
          new_integration,
          known,
          load_and_start,
          lookup-insert_self name s.made s.integs,
          load,
          start,
        )
        refl

  -- A request to stop a configured integration returns, if Stop of its instance returns; its name is
  -- gone, the others are as they were,
  -- and the manager still holds the instances that run.
  pub stop-IsServing :
      (name : String) (s : Server)
      → IsServing s
      → (name == "") ≡ false
      → listed name s.integrations ≡ true
      → StopReturns instances name s
      → (s' : Server) × (root_handler instances name "" s ≡ done s')
        × IsServing s'
        × ((x : String)
            → listed x s'.integrations ≡ (if name == x then false else listed x s.integrations))
  unfolding root_handler handle_stop stop_instance
  stop-IsServing name s w given there returns =
      let (n, at) = has-some name s.integs (sym (w.agrees name) ∙ there) in
      let left = remove_from-IsDistinct name s.integrations w.names in
      let without_it : Server = record s {
        integs = erase name s.integs;
        integrations = without name s.integrations;
        calls = stopped n ∷ s.calls;
      } in
      (
        without_it,
        rw (root_handler, given, handle_stop, stop_instance, at, returns n at)
            (ap
              (λ xs. done (record s {
                integs = erase name s.integs;
                integrations = xs;
                calls = stopped n ∷ s.calls;
              }))
              left),
        record {
          names = distinct-without name s.integrations w.names;
          known = λ x h. w.known x (ground (arith, listed-without name x s.integrations w.names));
          agrees = λ x.
              listed-without name x s.integrations w.names
              ∙ ap (λ b. if name == x then false else b) (w.agrees x)
              ∙ sym (has-erase name x s.integs);
          instances =
              erase-IsOwn name s.integs s.made (stopped n ∷ s.calls)
                (stopped-IsOwnBut name s.integs s.made s.calls n at w.instances);
        },
        λ x. listed-without name x s.integrations w.names,
      )

  -- What is left when the instance under this name has been replaced.
  pub record IsReloaded (name : String) (s s' : Server) : Type 0 where
    pub serving : IsServing s'
    pub names : s'.integrations ≡ s.integrations
    pub integs :
        (x : String) → lookup x s'.integs ≡ (if name == x then some s.made else lookup x s.integs)

  pub handle_reload-IsReloaded :
      (name : String) (s : Server)
      → IsServing s
      → listed name s.integrations ≡ true
      → StopReturns instances name s
      → Begins instances name s.made
      → (s' : Server) × (handle_reload instances name s ≡ done s') × IsReloaded name s s'
  unfolding handle_reload stop_instance
  handle_reload-IsReloaded name s w there returns begins =
      let (n, at) = has-some name s.integs (sym (w.agrees name) ∙ there) in
      let stopped_one : Server = record s { calls = stopped n ∷ s.calls } in
      (
        begun name stopped_one,
        rw (handle_reload, stop_instance, at, returns n at)
            (begin-done name stopped_one (w.known name there) begins),
        record {
          serving = record {
            names = w.names;
            known = w.known;
            agrees = λ x. agrees-insert name x s.made s.integrations s.integs there (w.agrees x);
            instances =
                insert-IsOwn name s.integs s.made (stopped n ∷ s.calls)
                  (stopped-IsOwnBut name s.integs s.made s.calls n at w.instances);
          };
          names = refl;
          integs = λ x. lookup-insert name x s.made s.integs;
        },
      )

  -- A request to reload a configured integration returns, if Stop of its instance returns, LoadConfig
  -- of the new one succeeds and its Start does not end the program: the old instance is stopped, the
  -- new one runs, and the manager holds it; the other names keep their instances.
  pub reload-IsServing :
      (name : String) (s : Server)
      → IsServing s
      → (name == "") ≡ false
      → listed name s.integrations ≡ true
      → StopReturns instances name s
      → Begins instances name s.made
      → (s' : Server) × (root_handler instances "" name s ≡ done s')
        × IsServing s'
        × (s'.integrations ≡ s.integrations)
        × ((x : String)
            → lookup x s'.integs ≡ (if name == x then some s.made else lookup x s.integs))
  unfolding root_handler
  reload-IsServing name s w given there returns begins =
      let (s', reloaded, facts) = handle_reload-IsReloaded name s w there returns begins in
      (
        s',
        rw (root_handler, given) (ap (recovered (left_by_reload instances name s)) reloaded),
        facts.serving,
        facts.names,
        facts.integs,
      )

  restart_without_clock :
      (s : Server) → lookup "time" s.integs ≡ none → daily_time_restart instances s ≡ panicked
  unfolding daily_time_restart handle_reload stop_instance
  restart_without_clock s e = rw (stop_instance, e) refl

  -- Once the clock is stopped by a request to the page, which it is if its Stop returns, the next daily restart ends the program.
  pub stopped_clock :
      (s : Server)
      → IsServing s
      → listed "time" s.integrations ≡ true
      → StopReturns instances "time" s
      → (s' : Server) × (root_handler instances "time" "" s ≡ done s')
        × (daily_time_restart instances s' ≡ panicked)
  stopped_clock s w there returns =
      let (s', returned, serving, gone) = stop-IsServing "time" s w refl there returns in
      let none_left = sym (serving.agrees "time") ∙ gone "time" in
      (s', returned, restart_without_clock s' (has-none "time" s'.integs none_left))
