-- ===== src/Automation/Control/Switching.antt =====
-- What the request changeEnabled does to a manager whose goroutines agree with its automations.
use aghast.Base.{
  ℕ, ◌≡◌, ◌≢◌, refl, sym, ap, ◌∙◌, String, Bool, true, false, not, none, some, List, ◌∷◌,
  if◌then◌else◌, nat_comparable, string_comparable, Bool-cases, inl, inr, lookup, lookup_or,
  lookup_or-some, lookup_or-none, erase, get_elem?, get_elem?-set_self, get_elem?-set_ne,
  get_elem?-some_lt, done, blocked,
}
use mathlib.Core.Path.{subst}
use aghast.Automation.{AutomationT}
use aghast.Automation.Control.Consistency.{IsConsistent}
use aghast.Automation.Control.Toggling.{disabled-IsConsistent, launched-IsConsistent}
use aghast.Automation.Control.{
  waiter, Control, launch, worker_at, drop_worker, stop_waiter, switch, toggle, toggle_at,
  change_at, change_enabled,
}

module _ {F : Type 0} where
  change_at-some :
      (name : String) (ix : ℕ) (auto : AutomationT F) (s : Control F)
      → get_elem? s.automations ix ≡ some auto
      → change_at name ix s ≡ switch (not auto.enabled) (toggle auto) name (toggle_at ix auto s)
  unfolding change_at
  change_at-some name ix auto s at = rw (change_at, at) refl

  change_enabled_at :
      (name : String) (ix : ℕ) (auto : AutomationT F) (s : Control F)
      → lookup_or 0 name s.by_name ≡ ix
      → get_elem? s.automations ix ≡ some auto
      → change_enabled name s ≡ switch (not auto.enabled) (toggle auto) name (toggle_at ix auto s)
  unfolding change_enabled
  change_enabled_at name ix auto s index at =
      ap (λ i. change_at name i s) index ∙ change_at-some name ix auto s at

  stop_waiter_at :
      (name : String) (c ch : ℕ) (auto : AutomationT F) (s : Control F)
      → lookup name s.stop_chans ≡ some c
      → worker_at c s.running ≡ some (waiter auto ch)
      → stop_waiter name s
        ≡ done
            (record s { running = drop_worker c s.running; stop_chans = erase name s.stop_chans })
  unfolding stop_waiter
  stop_waiter_at name c ch auto s found runs = rw (stop_waiter, found, runs) refl

  -- A request to switch an automation that the manager knows always returns: the automation is
  -- disabled if it was enabled and enabled if it was disabled, every other one is as it was, and
  -- still the goroutines are those of the enabled automations and of no other, each with its
  -- automation, subscribed to its topic, and under a stop channel of its own name.
  pub change_enabled-IsConsistent :
      (name : String) (ix : ℕ) (s : Control F)
      → IsConsistent s
      → lookup name s.by_name ≡ some ix
      → (s' : Control F) × (auto : AutomationT F) × (change_enabled name s ≡ done s')
        × (get_elem? s.automations ix ≡ some auto)
        × (get_elem? s'.automations ix ≡ some (toggle auto))
        × ((j : ℕ) → ix ≢ j → get_elem? s'.automations j ≡ get_elem? s.automations j)
        × IsConsistent s'
  unfolding switch launch
  change_enabled-IsConsistent name ix s w known =
      let (auto, at, called) = w.names.named name ix known in
      let s1 = toggle_at ix auto s in
      let way = change_enabled_at name ix auto s (lookup_or-some 0 ix name s.by_name known) at in
      let flag =
        get_elem?-set_self s.automations ix (toggle auto) (get_elem?-some_lt s.automations ix at) in
      let kept = λ (j : ℕ) (ne : ix ≢ j). get_elem?-set_ne s.automations (toggle auto) ne in
      let turn = λ (b : Bool) (e : auto.enabled ≡ b).
        way ∙ ap (λ b. switch (not b) (toggle auto) name s1) e in
      elim (Bool-cases auto.enabled) [
        | inl e ↦
            let (c, ch, found, runs, _) = w.enabled ix auto at e in
            let found' = ap (λ n. lookup n s.stop_chans) (sym called) ∙ found in
            let stopped = λ (n : String). record s1 {
              running = drop_worker c s.running;
              stop_chans = erase n s.stop_chans;
            } in
            (
              stopped name,
              auto,
              turn true e ∙ stop_waiter_at name c ch auto s1 found' runs,
              at,
              flag,
              kept,
              subst (λ n. IsConsistent (stopped n)) called
                  (disabled-IsConsistent s ix c auto w at e found),
            )
        | inr e ↦ (
          launch (toggle auto) s1,
          auto,
          turn false e,
          at,
          flag,
          kept,
          launched-IsConsistent s ix auto w at e,
        )
      ]

  -- A request with an unknown name is taken for automation 0: if that is disabled it is launched
  -- and enabled, and if it is enabled the monitor waits for ever, unless the name is that of a stop
  -- channel.
  pub change_enabled_unknown :
      (name : String) (first : AutomationT F) (rest : List (AutomationT F)) (s : Control F)
      → lookup name s.by_name ≡ none
      → lookup name s.stop_chans ≡ none
      → s.automations ≡ first ∷ rest
      → change_enabled name s
        ≡ (if first.enabled then blocked else done (launch (toggle first) (toggle_at 0 first s)))
  unfolding switch stop_waiter
  change_enabled_unknown name first rest s known found at =
      let there : get_elem? s.automations 0 ≡ some first = rw at refl in
      let way = change_enabled_at name 0 first s (lookup_or-none 0 name s.by_name known) there in
      let waits : stop_waiter name (toggle_at 0 first s) ≡ blocked = rw (stop_waiter, found) refl in
      elim (Bool-cases first.enabled) [
        | inl e ↦
            way
            ∙ ap (λ b. switch (not b) (toggle first) name (toggle_at 0 first s)) e
            ∙ waits
            ∙ rw e refl
        | inr e ↦
            way
            ∙ ap (λ b. switch (not b) (toggle first) name (toggle_at 0 first s)) e
            ∙ sym (
                ap (λ b. if b then blocked else done (launch (toggle first) (toggle_at 0 first s)))
                  e)
      ]
