-- ===== src/Automation/Control/Starting.antt =====
-- Start brings goroutines and flags into agreement.
use aghast.Base.{
  some_inj, ℕ, suc, ◌≡◌, ◌≢◌, refl, sym, ap, ◌∙◌, true, false, some, List, [], ◌∷◌, ◌==◌,
  nat_comparable, string_comparable, eq_iff, arith, Bool-cases, inl, inr, lookup, lookup-insert,
  get_elem?,
}
use mathlib.Core.Path.{subst}
use aghast.Runtime.{Value}
use aghast.Mqtt.{Mqtt}
use aghast.Automation.{AutomationT}
use aghast.Automation.Control.{waiter, Control, launch_enabled, launch_monitor, start, worker_at}
use aghast.Automation.Control.Consistency.{
  IsWaiting, IsIndexed, HasOwnChannels, IsConsistent, own_inserted, IsAccounted, subscribe_hears,
}
use aghast.Automation.Control.Launching.{
  HasOwnNames, launch_enabled-HasOwnChannels, launch_enabled_waits, launch_enabled_else,
  launch_enabled_same, launch_enabled-IsAccounted,
}

module _ {F : Type 0} where
  monitored-IsWaiting :
      (s : Control F) (auto : AutomationT F)
      → HasOwnChannels s
      → "mqttMonitor" ≢ auto.name
      → IsWaiting s auto
      → IsWaiting (launch_monitor s) auto
  unfolding launch_monitor worker_at
  monitored-IsWaiting s auto w ne (d, ch, found, runs, hears) =
      let older = w.made auto.name d found in
      (
        d,
        ch,
        ground (
          arith,
          lookup-insert "mqttMonitor" auto.name s.next_chan s.stop_chans,
          eq_iff "mqttMonitor" auto.name,
        ),
        ground arith,
        subscribe_hears "aghast/automation/client/#" auto.event_topic s.mq ch hears,
      )

  monitored-IsAccounted :
      (autos : List (AutomationT F)) (s : Control F)
      → ((ix : ℕ) (a : AutomationT F) → get_elem? autos ix ≡ some a → "mqttMonitor" ≢ a.name)
      → IsAccounted autos s
      → IsAccounted autos (launch_monitor s)
  unfolding launch_monitor worker_at
  monitored-IsAccounted autos s free w c a ch h = elim (Bool-cases (s.next_chan == c)) [
    | inl e ↦ let never = some_inj (rw e at h) in absurd (cc)
    | inr e ↦
        let (found, (ix, at), on) = w c a ch (rw e at h) in
        let ne = free ix a at in
        (
          ground (
            arith,
            lookup-insert "mqttMonitor" a.name s.next_chan s.stop_chans,
            eq_iff "mqttMonitor" a.name,
          ),
          (ix, at),
          on,
        )
  ]

  monitored-HasOwnChannels : (s : Control F) → HasOwnChannels s → HasOwnChannels (launch_monitor s)
  unfolding launch_monitor
  monitored-HasOwnChannels s w = record {
    own = λ name other d h k. own_inserted s "mqttMonitor" name other d w h k;
    made = λ name d h.
        ground (arith, w.made name d, lookup-insert "mqttMonitor" name s.next_chan s.stop_chans);
  }

  -- No enabled automation has the name of a disabled one.
  only :
      (s : Control F) (ix : ℕ) (a : AutomationT F)
      → IsIndexed s
      → get_elem? s.automations ix ≡ some a
      → a.enabled ≡ false
      → (j : ℕ) (b : AutomationT F) → get_elem? s.automations j ≡ some b
      → b.enabled ≡ true
      → b.name ≢ a.name
  only s ix a names at off j b there on e =
      let same : j ≡ ix =
        some_inj (
          sym (names.indexed j b there) ∙ ap (λ n. lookup n s.by_name) e ∙ names.indexed ix a at) in
      let it : b ≡ a = some_inj (sym there ∙ ap (get_elem? s.automations) same ∙ at) in
      let contra : true ≡ false = sym on ∙ ap AutomationT.enabled it ∙ off in absurd (cc)

  own_names :
      (autos : List (AutomationT F))
      → ((i j : ℕ) (a b : AutomationT F)
          → get_elem? autos i ≡ some a
          → get_elem? autos j ≡ some b
          → a.name ≡ b.name
          → i ≡ j)
      → HasOwnNames autos
  own_names [] one = tt
  own_names (auto ∷ autos) one = (
    λ ix b at e. let never = one (suc ix) 0 b auto at refl e in absurd (omega arith),
    own_names autos
        (λ i j a b at there e. let next = one (suc i) (suc j) a b at there e in omega arith),
  )

  indexed-HasOwnNames : (s : Control F) → IsIndexed s → HasOwnNames s.automations
  indexed-HasOwnNames s names = own_names s.automations (λ i j a b at there e.
      some_inj
        (sym (names.indexed i a at) ∙ ap (λ n. lookup n s.by_name) e ∙ names.indexed j b there))

  -- If the names are indexed, none is mqttMonitor and no goroutine runs yet, Start leaves the
  -- goroutines of the enabled automations and of no other: each with its automation, subscribed to
  -- its topic, and under a stop channel of its own name that no other name has.
  pub start-IsConsistent :
      (mq : Mqtt (Value F)) (s : Control F)
      → IsIndexed s
      → ((ix : ℕ) (a : AutomationT F)
          → get_elem? s.automations ix ≡ some a
          → "mqttMonitor" ≢ a.name)
      → s.running ≡ []
      → IsConsistent (start mq s)
  unfolding start launch_monitor lookup worker_at
  start-IsConsistent mq s names free idle =
      let s0 : Control F = record s { mq = mq; stop_chans = [] } in
      let s1 = launch_enabled s.automations s0 in
      let (autos_same, names_same) = launch_enabled_same s.automations s0 in
      let w0 : HasOwnChannels s0 = record {
        own = λ n o c h. absurd (cc);
        made = λ n c h. absurd (cc);
      } in
      let w1 = launch_enabled-HasOwnChannels s.automations s0 w0 in
      let own = indexed-HasOwnNames s names in
      let unused : (c : ℕ) (a : AutomationT F) (ch : ℕ)
          → worker_at c s.running ≢ some (waiter a ch) =
        λ c a ch h. let h' = rw idle at h in absurd (cc) in
      let w2 : IsAccounted s.automations s1 =
        launch_enabled-IsAccounted s.automations s.automations s0
          (λ ix b at. ((ix, at), λ c a ch h. absurd (unused c a ch h))) own
          (λ c a ch h. absurd (unused c a ch h)) in
      let read = λ (ix : ℕ). ap (λ l. get_elem? l ix) autos_same in
      record {
        names = record {
          indexed =
              λ ix a at. ap (lookup a.name) names_same ∙ names.indexed ix a (sym (read ix) ∙ at);
          named = λ name ix h.
              let (a, at, called) = names.named name ix (sym (ap (lookup name) names_same) ∙ h) in
              (a, read ix ∙ at, called);
        };
        channels = monitored-HasOwnChannels s1 w1;
        enabled = λ ix a at on.
            let there = sym (read ix) ∙ at in
            monitored-IsWaiting s1 a w1 (free ix a there)
              (launch_enabled_waits s.automations s0 ix a w0 own there on);
        accounted =
            subst (λ l. IsAccounted l (launch_monitor s1)) (sym autos_same)
              (monitored-IsAccounted s.automations s1 free w2);
        disabled = λ ix a at off.
            let there = sym (read ix) ∙ at in
            let none_else =
              launch_enabled_else s.automations s0 a.name (only s ix a names there off) in
            let other = free ix a there in
            ground (
              arith,
              lookup-insert "mqttMonitor" a.name s1.next_chan s1.stop_chans,
              eq_iff "mqttMonitor" a.name,
              none_else,
            );
      }
