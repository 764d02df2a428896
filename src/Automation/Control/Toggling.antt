-- ===== src/Automation/Control/Toggling.antt =====
-- What becomes of that agreement when one automation is switched.
use aghast.Base.{
  refl, some_inj, ℕ, ◌≡◌, ◌≢◌, ◌⊎◌, sym, ap, ◌∙◌, String, true, false, not, none, some, List, [],
  ◌∷◌, if◌then◌else◌, ◌==◌, nat_comparable, string_comparable, eq_iff, arith, Bool-cases, inl, inr,
  lookup, lookup-insert, lookup-erase, erase, get_elem?, set, get_elem?-set_self, get_elem?-set_ne,
  get_elem?-some_lt,
}
use aghast.Automation.{AutomationT}
use aghast.Automation.Control.Consistency.{
  HasOwnChannels, IsConsistent, launch-HasOwnChannels, launch-IsWaiting_self, launch-IsWaiting,
  IsUnused, launch-IsAccounted,
}
use aghast.Automation.Control.{
  waiter, Worker, Control, launch, worker_at, drop_worker, toggle, toggle_at,
}

module _ {F : Type 0} where
  worker_at-drop_worker :
      (c d : ℕ) (ws : List (ℕ × Worker F))
      → worker_at d (drop_worker c ws) ≡ (if c == d then none else worker_at d ws)
  unfolding worker_at drop_worker
  worker_at-drop_worker c d [] = ground arith
  worker_at-drop_worker c d ((e, w) ∷ ws) = ground (arith, worker_at-drop_worker c d ws)

  -- What an automation of the changed list was before the change.
  before :
      (autos : List (AutomationT F)) (ix j : ℕ) (auto a : AutomationT F)
      → get_elem? autos ix ≡ some auto
      → get_elem? (set autos ix (toggle auto)) j ≡ some a
      → ((ix ≡ j) × (toggle auto ≡ a)) ⊎ ((ix ≢ j) × (get_elem? autos j ≡ some a))
  before autos ix j auto a at h = elim (Bool-cases (ix == j)) [
    | inl e ↦
        let same : ix ≡ j = ground arith in
        let written = get_elem?-set_self autos ix (toggle auto) (get_elem?-some_lt autos ix at) in
        let read = ap (get_elem? (set autos ix (toggle auto))) same ∙ h in
        inl (same, some_inj (sym written ∙ read))
    | inr e ↦
        let ne : ix ≢ j = ground arith in
        inr (ne, sym (get_elem?-set_ne autos (toggle auto) ne) ∙ h)
  ]

  -- The names of two automations differ.
  apart :
      (s : Control F) (ix j : ℕ) (auto a : AutomationT F)
      → IsConsistent s
      → get_elem? s.automations ix ≡ some auto
      → get_elem? s.automations j ≡ some a
      → ix ≢ j
      → auto.name ≢ a.name
  apart s ix j auto a w at there ne e = ne (
      some_inj (
        sym (w.names.indexed ix auto at)
        ∙ ap (λ n. lookup n s.by_name) e
        ∙ w.names.indexed j a there))

  -- The part of the invariant that speaks of names survives a change of a flag.
  indexed_toggled :
      (s : Control F) (ix : ℕ) (auto : AutomationT F)
      → IsConsistent s
      → get_elem? s.automations ix ≡ some auto
      → (j : ℕ) (a : AutomationT F) → get_elem? (set s.automations ix (toggle auto)) j ≡ some a
      → lookup a.name s.by_name ≡ some j
  indexed_toggled s ix auto w at j a h = elim (before s.automations ix j auto a at h) [
    | inl (same, e) ↦ rw (← same, ← e) (w.names.indexed ix auto at)
    | inr (ne, there) ↦ w.names.indexed j a there
  ]

  named_toggled :
      (s : Control F) (ix : ℕ) (auto : AutomationT F)
      → IsConsistent s
      → get_elem? s.automations ix ≡ some auto
      → (name : String) (j : ℕ) → lookup name s.by_name ≡ some j
      → (a : AutomationT F) × (get_elem? (set s.automations ix (toggle auto)) j ≡ some a)
        × (a.name ≡ name)
  named_toggled s ix auto w at name j h =
      let (a, there, called) = w.names.named name j h in
      elim (Bool-cases (ix == j)) [
        | inl e ↦
            let same : ix ≡ j = ground arith in
            let it : auto ≡ a = some_inj (sym at ∙ ap (get_elem? s.automations) same ∙ there) in
            (
              toggle auto,
              ap (get_elem? (set s.automations ix (toggle auto))) (sym same)
                  ∙ get_elem?-set_self s.automations ix (toggle auto)
                      (get_elem?-some_lt s.automations ix at),
              ap AutomationT.name it ∙ called,
            )
        | inr e ↦ (a, get_elem?-set_ne s.automations (toggle auto) (ground arith) ∙ there, called)
      ]

  -- A goroutine that still runs is another, and has run before.
  still_runs :
      (c d : ℕ) (a : AutomationT F) (ch : ℕ) (ws : List (ℕ × Worker F))
      → worker_at d (drop_worker c ws) ≡ some (waiter a ch)
      → (c ≢ d) × (worker_at d ws ≡ some (waiter a ch))
  still_runs c d a ch ws h = elim (Bool-cases (c == d)) [
    | inl e ↦
        let dropped : none ≡ some (waiter a ch) =
          sym (worker_at-drop_worker c d ws ∙ rw e refl) ∙ h in
        absurd (cc)
    | inr e ↦ ((λ f. ground (arith, f)), sym (worker_at-drop_worker c d ws ∙ rw e refl) ∙ h)
  ]

  -- An automation of another name keeps its place.
  stays_in :
      (autos : List (AutomationT F)) (ix j : ℕ) (auto a : AutomationT F)
      → get_elem? autos j ≡ some a
      → auto.name ≢ a.name
      → get_elem? autos ix ≡ some auto
      → (k : ℕ) × (get_elem? (set autos ix (toggle auto)) k ≡ some a)
  stays_in autos ix j auto a there ne at = elim (Bool-cases (ix == j)) [
    | inl e ↦
        let same : ix ≡ j = ground arith in
        absurd (ne (ap AutomationT.name (some_inj (sym at ∙ ap (get_elem? autos) same ∙ there))))
    | inr e ↦ (j, get_elem?-set_ne autos (toggle auto) (ground arith) ∙ there)
  ]

  -- The enabled automation goes: its goroutine has returned.
  pub disabled-IsConsistent :
      (s : Control F) (ix c : ℕ) (auto : AutomationT F)
      → IsConsistent s
      → get_elem? s.automations ix ≡ some auto
      → auto.enabled ≡ true
      → lookup auto.name s.stop_chans ≡ some c
      → IsConsistent (record (toggle_at ix auto s) {
        running = drop_worker c s.running;
        stop_chans = erase auto.name s.stop_chans;
      })
  disabled-IsConsistent s ix c auto w at e l = record {
    names = record {
      indexed = indexed_toggled s ix auto w at;
      named = named_toggled s ix auto w at;
    };
    enabled = λ j a h on. elim (before s.automations ix j auto a at h) [
      | inl (same, it) ↦ let off : a.enabled ≡ false = rw (← it) (ap not e) in absurd (cc)
      | inr (ne, there) ↦
          let (d, ch, found, runs, hears) = w.enabled j a there on in
          let other = apart s ix j auto a w at there ne in
          let stays : c ≢ d =
            λ same. other (w.channels.own auto.name a.name c l (found ∙ ap some (sym same))) in
          (
            d,
            ch,
            ground (arith, lookup-erase auto.name a.name s.stop_chans, eq_iff auto.name a.name),
            ground (arith, worker_at-drop_worker c d s.running),
            hears,
          )
    ];
    disabled = λ j a h off. elim (before s.automations ix j auto a at h) [
      | inl (same, it) ↦ rw (← it) (
          ground (arith, lookup-erase auto.name auto.name s.stop_chans, eq_iff auto.name auto.name))
      | inr (ne, there) ↦
          ground (arith, w.disabled j a there off, lookup-erase auto.name a.name s.stop_chans)
    ];
    accounted = λ d a ch h.
        let (other, runs) = still_runs c d a ch s.running h in
        let (found, (j, there), on) = w.accounted d a ch runs in
        let ne : auto.name ≢ a.name =
          λ f. other (some_inj (sym l ∙ ap (λ n. lookup n s.stop_chans) f ∙ found)) in
        (
          ground (arith, lookup-erase auto.name a.name s.stop_chans, eq_iff auto.name a.name),
          stays_in s.automations ix j auto a there ne at,
          on,
        );
    channels = record {
      own = λ name other d h k.
          w.channels.own name other d (ground (arith, lookup-erase auto.name name s.stop_chans))
            (ground (arith, lookup-erase auto.name other s.stop_chans));
      made = λ name d h.
          w.channels.made name d (ground (arith, lookup-erase auto.name name s.stop_chans));
    };
  }

  -- The disabled automation gets a goroutine of its own.
  pub launched-IsConsistent :
      (s : Control F) (ix : ℕ) (auto : AutomationT F)
      → IsConsistent s
      → get_elem? s.automations ix ≡ some auto
      → auto.enabled ≡ false
      → IsConsistent (launch (toggle auto) (toggle_at ix auto s))
  unfolding launch
  launched-IsConsistent s ix auto w at e =
      let s1 = toggle_at ix auto s in
      let owned : HasOwnChannels s1 = record { own = w.channels.own; made = w.channels.made } in
      let written =
        get_elem?-set_self s.automations ix (toggle auto) (get_elem?-some_lt s.automations ix at) in
      let unused : IsUnused auto.name s1 = λ c a ch h f.
        let (found, _, _) = w.accounted c a ch h in
        let gone = w.disabled ix auto at e in
        let wrong = sym gone ∙ ap (λ n. lookup n s.stop_chans) f ∙ found in absurd (cc) in
      record {
        names = record {
          indexed = indexed_toggled s ix auto w at;
          named = named_toggled s ix auto w at;
        };
        channels = launch-HasOwnChannels (toggle auto) s1 owned;
        enabled = λ j a h on. elim (before s.automations ix j auto a at h) [
          | inl (same, it) ↦ rw (← it) (launch-IsWaiting_self (toggle auto) s1)
          | inr (ne, there) ↦
              launch-IsWaiting (toggle auto) a s1 owned (apart s ix j auto a w at there ne)
                (w.enabled j a there on)
        ];
        accounted =
            launch-IsAccounted s1.automations (toggle auto) ix s1 written (ap not e) unused
              (λ c a ch h.
                let (found, (j, there), on) = w.accounted c a ch h in
                (found, stays_in s.automations ix j auto a there (unused c a ch h) at, on));
        disabled = λ j a h off. elim (before s.automations ix j auto a at h) [
          | inl (same, it) ↦ let on : a.enabled ≡ true = rw (← it) (ap not e) in absurd (cc)
          | inr (ne, there) ↦
              let other = apart s ix j auto a w at there ne in
              ground (
                arith,
                w.disabled j a there off,
                eq_iff auto.name a.name,
                lookup-insert auto.name a.name s.next_chan s.stop_chans,
              )
        ];
      }
