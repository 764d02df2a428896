-- ===== src/Automation/Control/Launching.antt =====
-- What the loop of Start does that launches the enabled automations.
use aghast.Base.{
  some_inj, ℕ, zero, suc, ◌≡◌, ◌≢◌, refl, sym, ap, ◌∙◌, String, true, false, some, List, [], ◌∷◌,
  if◌then◌else◌, nat_comparable, string_comparable, eq_iff, arith, Bool-cases, inl, inr, lookup,
  lookup-insert, get_elem?,
}
use mathlib.Core.Path.{subst}
use aghast.Automation.{AutomationT}
use aghast.Automation.Control.{Control, launch, launch_enabled}
use aghast.Automation.Control.Consistency.{
  IsWaiting, HasOwnChannels, launch-HasOwnChannels, launch-IsWaiting_self, launch-IsWaiting,
  IsAccounted, IsUnused, launch-worker_at, launch-IsAccounted,
}

module _ {F : Type 0} where
  launched : AutomationT F → Control F → Control F
  launched auto s = if auto.enabled then launch auto s else s

  launched_on :
      (auto : AutomationT F) (s : Control F) → auto.enabled ≡ true → launch auto s ≡ launched auto s
  unfolding launched
  launched_on auto s e = ap (λ b. if b then launch auto s else s) (sym e)

  launched_off : (auto : AutomationT F) (s : Control F) → auto.enabled ≡ false → s ≡ launched auto s
  unfolding launched
  launched_off auto s e = ap (λ b. if b then launch auto s else s) (sym e)

  launched-HasOwnChannels :
      (auto : AutomationT F) (s : Control F) → HasOwnChannels s → HasOwnChannels (launched auto s)
  launched-HasOwnChannels auto s w = elim (Bool-cases auto.enabled) [
    | inl e ↦ subst HasOwnChannels (launched_on auto s e) (launch-HasOwnChannels auto s w)
    | inr e ↦ subst HasOwnChannels (launched_off auto s e) w
  ]

  -- A launch does not end the waiting of another automation.
  launched-IsWaiting :
      (auto other : AutomationT F) (s : Control F)
      → HasOwnChannels s
      → auto.name ≢ other.name
      → IsWaiting s other
      → IsWaiting (launched auto s) other
  launched-IsWaiting auto other s w ne waits = elim (Bool-cases auto.enabled) [
    | inr e ↦ subst (λ x. IsWaiting x other) (launched_off auto s e) waits
    | inl e ↦
        subst (λ x. IsWaiting x other) (launched_on auto s e)
          (launch-IsWaiting auto other s w ne waits)
  ]

  -- No automation of the list has this name.
  abbrev pub IsApart : String → List (AutomationT F) → Type 0
  IsApart name autos = (ix : ℕ) (b : AutomationT F) → get_elem? autos ix ≡ some b → b.name ≢ name

  abbrev pub HasOwnNames : List (AutomationT F) → Type 0
  HasOwnNames [] = Unit
  HasOwnNames (auto ∷ autos) = IsApart auto.name autos × HasOwnNames autos

  pub launch_enabled-HasOwnChannels :
      (autos : List (AutomationT F)) (s : Control F)
      → HasOwnChannels s
      → HasOwnChannels (launch_enabled autos s)
  unfolding launch_enabled launched
  launch_enabled-HasOwnChannels [] s w = w
  launch_enabled-HasOwnChannels (auto ∷ autos) s w =
      launch_enabled-HasOwnChannels autos (launched auto s) (launched-HasOwnChannels auto s w)

  launch_enabled-IsWaiting :
      (autos : List (AutomationT F)) (s : Control F) (auto : AutomationT F)
      → HasOwnChannels s
      → IsApart auto.name autos
      → IsWaiting s auto
      → IsWaiting (launch_enabled autos s) auto
  unfolding launch_enabled launched
  launch_enabled-IsWaiting [] s auto w apart waits = waits
  launch_enabled-IsWaiting (a ∷ autos) s auto w apart waits =
      launch_enabled-IsWaiting autos (launched a s) auto (launched-HasOwnChannels a s w)
        (λ ix b at. apart (suc ix) b at) (launched-IsWaiting a auto s w (apart 0 a refl) waits)

  pub launch_enabled_waits :
      (autos : List (AutomationT F)) (s : Control F) (ix : ℕ) (auto : AutomationT F)
      → HasOwnChannels s
      → HasOwnNames autos
      → get_elem? autos ix ≡ some auto
      → auto.enabled ≡ true
      → IsWaiting (launch_enabled autos s) auto
  unfolding launch_enabled launched
  launch_enabled_waits [] s ix auto w names at on = absurd (cc)
  launch_enabled_waits (a ∷ autos) s zero auto w names at on =
      let same : a ≡ auto = some_inj at in
      let apart : IsApart auto.name autos = subst (λ x. IsApart x.name autos) same names.0 in
      let first : IsWaiting (launched auto s) auto =
        subst (λ x. IsWaiting x auto) (launched_on auto s on) (launch-IsWaiting_self auto s) in
      subst (λ x. IsWaiting (launch_enabled autos (launched x s)) auto) (sym same)
        (launch_enabled-IsWaiting autos (launched auto s) auto (launched-HasOwnChannels auto s w)
          apart first)
  launch_enabled_waits (a ∷ autos) s (suc ix) auto w names at on =
      launch_enabled_waits autos (launched a s) ix auto (launched-HasOwnChannels a s w) names.1 at
        on

  launched-IsUnused :
      (auto : AutomationT F) (s : Control F) (name : String)
      → name ≢ auto.name
      → IsUnused name s
      → IsUnused name (launched auto s)
  launched-IsUnused auto s name ne unused = elim (Bool-cases auto.enabled) [
    | inr e ↦ subst (IsUnused name) (launched_off auto s e) unused
    | inl e ↦ subst (IsUnused name) (launched_on auto s e) (λ c b ch h.
        elim (launch-worker_at auto b s c ch h) [
          | inl (number, same) ↦ λ f. ne (f ∙ ap AutomationT.name (sym same))
          | inr older ↦ unused c b ch older
        ])
  ]

  launched-IsAccounted :
      (all : List (AutomationT F)) (auto : AutomationT F) (ix : ℕ) (s : Control F)
      → get_elem? all ix ≡ some auto
      → IsUnused auto.name s
      → IsAccounted all s
      → IsAccounted all (launched auto s)
  launched-IsAccounted all auto ix s at unused w = elim (Bool-cases auto.enabled) [
    | inr e ↦ subst (IsAccounted all) (launched_off auto s e) w
    | inl e ↦
        subst (IsAccounted all) (launched_on auto s e)
          (launch-IsAccounted all auto ix s at e unused w)
  ]

  pub launch_enabled-IsAccounted :
      (all autos : List (AutomationT F)) (s : Control F)
      → ((ix : ℕ) (b : AutomationT F)
          → get_elem? autos ix ≡ some b
          → ((j : ℕ) × (get_elem? all j ≡ some b)) × IsUnused b.name s)
      → HasOwnNames autos
      → IsAccounted all s
      → IsAccounted all (launch_enabled autos s)
  unfolding launch_enabled launched
  launch_enabled-IsAccounted all [] s part names w = w
  launch_enabled-IsAccounted all (auto ∷ autos) s part names w =
      let ((j, at), unused) = part 0 auto refl in
      launch_enabled-IsAccounted all autos (launched auto s)
        (λ ix b there.
          let (within, free) = part (suc ix) b there in
          (within, launched-IsUnused auto s b.name (names.0 ix b there) free))
        names.1 (launched-IsAccounted all auto j s at unused w)

  pub launch_enabled_else :
      (autos : List (AutomationT F)) (s : Control F) (name : String)
      → ((ix : ℕ) (a : AutomationT F)
          → get_elem? autos ix ≡ some a
          → a.enabled ≡ true
          → a.name ≢ name)
      → lookup name (launch_enabled autos s).stop_chans ≡ lookup name s.stop_chans
  unfolding launch_enabled launched launch
  launch_enabled_else [] s name others = refl
  launch_enabled_else (auto ∷ autos) s name others =
      let first : lookup name (launched auto s).stop_chans ≡ lookup name s.stop_chans =
        elim (Bool-cases auto.enabled) [
          | inr e ↦ ap (λ x. lookup name x.stop_chans) (sym (launched_off auto s e))
          | inl e ↦
              let ne = others 0 auto refl e in
              let other : lookup name (launch auto s).stop_chans ≡ lookup name s.stop_chans =
                ground (
                  arith,
                  lookup-insert auto.name name s.next_chan s.stop_chans,
                  eq_iff auto.name name,
                ) in
              ap (λ x. lookup name x.stop_chans) (sym (launched_on auto s e)) ∙ other
        ] in
      launch_enabled_else autos (launched auto s) name (λ ix a at on. others (suc ix) a at on)
      ∙ first

  pub launch_enabled_same :
      (autos : List (AutomationT F)) (s : Control F)
      → ((launch_enabled autos s).automations ≡ s.automations)
        × ((launch_enabled autos s).by_name ≡ s.by_name)
  unfolding launch_enabled launched launch
  launch_enabled_same [] s = (refl, refl)
  launch_enabled_same (auto ∷ autos) s =
      let (autos_same, names_same) = launch_enabled_same autos (launched auto s) in
      elim (Bool-cases auto.enabled) [
        | inl e ↦
            let x = sym (launched_on auto s e) in
            (autos_same ∙ ap Control.automations x, names_same ∙ ap Control.by_name x)
        | inr e ↦
            let x = sym (launched_off auto s e) in
            (autos_same ∙ ap Control.automations x, names_same ∙ ap Control.by_name x)
      ]
