-- ===== src/Server/Starting.antt =====
-- Starting the configured integrations (StartIntegrations of server/integrationManager.go).
use aghast.Base.{
  ℕ, ◌≡◌, refl, ap, ◌∙◌, sym, arith, String, Bool, true, false, List, [], ◌∷◌, inl, inr,
  if◌then◌else◌, ◌==◌, nat_comparable, string_comparable, eq_iff, eq_refl, Assoc, lookup, insert,
  Bool-cases, done, ◌>>=◌, >>=-assoc,
}
use aghast.Server.{
  Instances, Server, listed, known_names, new_integration, load_and_start, start_each, at_rest,
  start_integrations,
}
use aghast.Server.Removing.{distinct}
use aghast.Server.Serving.{IsOwn, absent-IsOwnBut, insert-IsOwn}
use aghast.Server.Requests.{Begins, IsServing, has, begun, has-insert, has-none, begin-done}

-- Every instance of these names begins.
abbrev pub Succeeds : Instances → List String → Type 0
Succeeds instances is = (name : String) (n : ℕ) → listed name is ≡ true → Begins instances name n

distinct-other :
    (i x : String) (is : List String)
    → distinct (i ∷ is) ≡ true
    → listed x is ≡ true
    → (i == x) ≡ false
distinct-other i x is d h = elim (Bool-cases (i == x)) [
  | inl e ↦
      let same : listed i is ≡ listed x is = ap (λ y. listed y is) ((eq_iff i x).0 e) in
      absurd (ground arith)
  | inr e ↦ e
]

still_fresh :
    (i : String) (is : List String) (s : Server)
    → distinct (i ∷ is) ≡ true
    → ((x : String)
        → listed x (i ∷ is) ≡ true
        → (listed x known_names ≡ true) × (has x s.integs ≡ false))
    → (x : String) → listed x is ≡ true
    → (listed x known_names ≡ true) × (has x (insert i s.made s.integs) ≡ false)
still_fresh i is s d fresh x h =
    let other = distinct-other i x is d h in
    let before = fresh x (rw (listed, other) h) in
    (before.0, has-insert i x s.made s.integs ∙ rw other before.1)

added_first :
    (i x : String) (is : List String) (n : ℕ) (m : Assoc ℕ)
    → (if listed x is then true else has x (insert i n m))
      ≡ (if listed x (i ∷ is) then true else has x m)
added_first i x is n m =
    ap (λ b. if listed x is then true else b) (has-insert i x n m) ∙ (elim (Bool-cases (i == x)) [
      | inl e ↦ rw (listed, e) (if_same (listed x is))
      | inr e ↦ rw (listed, e) refl
    ])
  where
    if_same : (b : Bool) → (if b then true else true) ≡ true
    if_same true = refl
    if_same false = refl

nothing-IsOwn : IsOwn [] 0 []
unfolding lookup
nothing-IsOwn = record {
  below = λ x n h. absurd (cc);
  own = λ x y n h k. absurd (cc);
  held = λ n h. absurd (cc);
  runs = λ x n h. absurd (cc);
}

listed_or_not : (b : Bool) → b ≡ (if b then true else false)
listed_or_not true = refl
listed_or_not false = refl

module _ (instances : Instances) where
  later_listed : (i x : String) (is : List String) → listed x is ≡ true → listed x (i ∷ is) ≡ true
  later_listed i x is h = elim (Bool-cases (i == x)) [
    | inl e ↦ rw (listed, e) refl
    | inr e ↦ rw (listed, e) h
  ]

  -- What starting the names `is` adds.
  record Starts (is : List String) (s s' : Server) : Type 0 where
    returned : start_each instances is s ≡ done s'
    configured : s'.integrations ≡ s.integrations
    own : IsOwn s'.integs s'.made s'.calls
    added : (x : String) → has x s'.integs ≡ (if listed x is then true else has x s.integs)

  start_each-Starts :
      (is : List String) (s : Server)
      → distinct is ≡ true
      → ((x : String)
          → listed x is ≡ true
          → (listed x known_names ≡ true) × (has x s.integs ≡ false))
      → Succeeds instances is
      → IsOwn s.integs s.made s.calls
      → (s' : Server) × Starts is s s'
  unfolding start_each
  start_each-Starts [] s d fresh succeeds w =
      (s, record { returned = refl; configured = refl; own = w; added = λ x. refl })
  start_each-Starts (i ∷ is) s d fresh succeeds w =
      let first : (listed i known_names ≡ true) × (has i s.integs ≡ false) =
        fresh i (rw (listed, eq_refl i) refl) in
      let begin =
        begin-done instances i s first.0 (succeeds i s.made (rw (listed, eq_refl i) refl)) in
      let (s', later) =
        start_each-Starts is (begun i s) (ground arith) (still_fresh i is s d fresh)
          (λ x n h. succeeds x n (later_listed i x is h))
          (insert-IsOwn i s.integs s.made s.calls
            (absent-IsOwnBut i s.integs s.made s.calls (has-none i s.integs first.1) w)) in
      (
        s',
        record {
          returned =
              sym (
                >>=-assoc (new_integration i s) (load_and_start instances i)
                  (start_each instances is))
              ∙ ap (λ o. o >>= start_each instances is) begin
              ∙ later.returned;
          configured = later.configured;
          own = later.own;
          added = λ x. later.added x ∙ added_first i x is s.made s.integs;
        },
      )

  -- When the configured names are distinct and known, every
  -- LoadConfig succeeds and no Start ends the program, the start
  -- returns, with an instance for each name, and just these running.
  pub start_integrations-IsServing :
      (integrations : List String)
      → distinct integrations ≡ true
      → ((x : String) → listed x integrations ≡ true → listed x known_names ≡ true)
      → Succeeds instances integrations
      → (s : Server) × (start_integrations instances integrations ≡ done s)
        × IsServing s
        × (s.integrations ≡ integrations)
  unfolding start_integrations lookup
  start_integrations-IsServing integrations d known succeeds =
      let (s, begun_all) =
        start_each-Starts integrations (at_rest integrations) d (λ x h. (known x h, refl)) succeeds
          nothing-IsOwn in
      let same = begun_all.configured in
      (
        s,
        begun_all.returned,
        record {
          names = rw same d;
          known = λ x h. known x (rw same at h);
          agrees = λ x. rw same (listed_or_not (listed x integrations) ∙ sym (begun_all.added x));
          instances = begun_all.own;
        },
        same,
      )
