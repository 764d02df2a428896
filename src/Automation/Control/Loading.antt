-- ===== src/Automation/Control/Loading.antt =====
-- LoadConfig indexes the automations by their names.
use aghast.Base.{
  some_inj, ℕ, zero, suc, ◌+◌, ◌≡◌, ◌≢◌, ◌⊎◌, refl, sym, ap, ◌∙◌, String, Bool, true, false, Option,
  some, List, [], ◌∷◌, if◌then◌else◌, ◌==◌, string_comparable, eq_iff, arith, All, Bool-cases, inl,
  inr, Assoc, lookup, lookup-insert, lookup-insert_self, insert, get_elem?, done, >>=-eq-done,
  done-injective,
}
use mathlib.Core.Path.{subst}
use aghast.Automation.{AutomationT}
use aghast.Automation.Load.{Tree, load_files, index_names}
use aghast.Automation.Control.{Control, load_config}
use aghast.Automation.Control.Consistency.{IsIndexed}

module _ {F : Type 0} where
  -- No two automations have the same name.
  abbrev pub HasDistinctNames : List (AutomationT F) → Type 0
  HasDistinctNames [] = Unit
  HasDistinctNames (a ∷ autos) = All (λ b. a.name ≢ b.name) autos × HasDistinctNames autos

  index_names_else :
      (name : String) (ix : ℕ) (autos : List (AutomationT F)) (m : Assoc ℕ)
      → All (λ b. name ≢ b.name) autos
      → lookup name (index_names ix autos m) ≡ lookup name m
  unfolding index_names
  index_names_else name ix [] m h = refl
  index_names_else name ix (a ∷ autos) m (ne, h) =
      index_names_else name (ix + 1) autos (insert a.name ix m) h
      ∙ ground (arith, lookup-insert a.name name ix m, eq_iff a.name name)

  index_names-indexed :
      (ix j : ℕ) (autos : List (AutomationT F)) (m : Assoc ℕ) (auto : AutomationT F)
      → HasDistinctNames autos
      → get_elem? autos j ≡ some auto
      → lookup auto.name (index_names ix autos m) ≡ some (ix + j)
  unfolding index_names
  index_names-indexed ix j [] m auto d h = absurd (cc)
  index_names-indexed ix zero (a ∷ autos) m auto (first, d) h =
      let same : ix ≡ ix + 0 = omega arith in
      ap (λ x. lookup x (index_names (ix + 1) autos (insert a.name ix m)))
        (sym (ap AutomationT.name (some_inj h)))
      ∙ index_names_else a.name (ix + 1) autos (insert a.name ix m) first
      ∙ lookup-insert_self a.name ix m
      ∙ ap some same
  index_names-indexed ix (suc j) (a ∷ autos) m auto (first, d) h =
      let same : ix + 1 + j ≡ ix + suc j = omega arith in
      index_names-indexed (ix + 1) j autos (insert a.name ix m) auto d h ∙ ap some same

  abbrev Indexes : ℕ → List (AutomationT F) → String → ℕ → Type 0
  Indexes ix autos name k =
      (j : ℕ) × (auto : AutomationT F) × (k ≡ ix + j)
      × (get_elem? autos j ≡ some auto)
      × (auto.name ≡ name)

  index_names-named :
      (ix : ℕ) (autos : List (AutomationT F)) (m : Assoc ℕ) (name : String) (k : ℕ)
      → lookup name (index_names ix autos m) ≡ some k
      → Indexes ix autos name k ⊎ (lookup name m ≡ some k)
  unfolding index_names
  index_names-named ix [] m name k h = inr h
  index_names-named ix (a ∷ autos) m name k h =
      elim (index_names-named (ix + 1) autos (insert a.name ix m) name k h) [
        | inl (j, auto, e, at, called) ↦ inl (suc j, auto, omega (arith, e), at, called)
        | inr there ↦ elim (Bool-cases (a.name == name)) [
          | inl f ↦
              let here : some ix ≡ some k =
                sym (lookup-insert a.name name ix m ∙ rw f refl) ∙ there in
              let same = some_inj here in
              inl (0, a, omega (arith, same), refl, (eq_iff a.name name).0 f)
          | inr f ↦ inr (sym (lookup-insert a.name name ix m ∙ rw f refl) ∙ there)
        ]
      ]

  index_names-IsIndexed :
      (s : Control F)
      → HasDistinctNames s.automations
      → IsIndexed (record s { by_name = index_names 0 s.automations [] })
  unfolding lookup
  index_names-IsIndexed s d = record {
    indexed = λ ix auto at.
        let same : 0 + ix ≡ ix = omega arith in
        index_names-indexed 0 ix s.automations [] auto d at ∙ ap some same;
    named = λ name ix h. elim (index_names-named 0 s.automations [] name ix h) [
      | inl (j, auto, e, at, called) ↦
          let same : j ≡ ix = omega (arith, e) in
          (auto, sym (ap (get_elem? s.automations) same) ∙ at, called)
      | inr never ↦ absurd (cc)
    ];
  }

  -- When LoadConfig succeeds and no two of the automations have the same name, the map of names
  -- holds the index of each automation under its name, and nothing else.
  pub load_config-IsIndexed :
      (files : List (String × Option (Tree F))) (s s' : Control F)
      → load_config (some files) s ≡ done (s', true)
      → HasDistinctNames s'.automations
      → IsIndexed s'
  unfolding load_config
  load_config-IsIndexed files s s' h d =
      let good = λ (autos : List (AutomationT F)). record s {
        automations = autos;
        by_name = index_names 0 autos [];
      } in
      let bad = λ (autos : List (AutomationT F)). record s { automations = autos; by_name = [] } in
      let (p, loaded, last) =
        >>=-eq-done (load_files files s.automations)
          (λ p. if p.1 then done (good p.0, true) else done (bad p.0, false)) h in
      elim (Bool-cases p.1) [
        | inl e ↦
            let returned : done (good p.0, true) ≡ done (s', true) = rw e at last in
            let same : good p.0 ≡ s' =
              ap (λ (r : Control F × Bool). r.0) (done-injective returned) in
            let distinct = subst HasDistinctNames (sym (ap Control.automations same)) d in
            subst IsIndexed same (index_names-IsIndexed (good p.0) distinct)
        | inr e ↦
            let returned : done (bad p.0, false) ≡ done (s', true) = rw e at last in
            let never : false ≡ true =
              ap (λ (r : Control F × Bool). r.1) (done-injective returned) in
            absurd (cc)
      ]
