-- ===== src/Time/Alerts.antt =====
-- LoadConfig and timeEvents: an event of the file is published at its time.
use mathlib.Core.List.{append_assoc, append-nil}
use aghast.Base.{
  some_inj, ◌≡◌, refl, sym, ap, ◌∙◌, String, Bool, false, some, List, [], ◌∷◌, ◌++◌, map,
  if◌then◌else◌, ◌==◌, string_comparable, eq_iff, Assoc, lookup, lookup_or, lookup_or-insert,
  insert, Bool-cases, inl, inr, Outcome, done, >>=-eq-done, done-injective,
}
use aghast.Base.Int.{pos}
use aghast.Time.{Clock, TimeEventT, time_of, add_alerts, load_config}

abbrev pub alert : String → TimeEventT → TimeEventT
alert t ev = record { name = ev.name; hhmmss = t; daily = ""; offset_mins = pos 0 }

abbrev pub falls_at : String → Outcome String → Bool
falls_at t (done hhmmss) = hhmmss == t
falls_at t _ = false

module _ (clock : Clock) where
  abbrev pub is_at : String → TimeEventT → Bool
  is_at t ev = falls_at t (time_of clock ev)

  -- The events of the file that are due at a time, in the file's order.
  abbrev pub due_at : String → List TimeEventT → List TimeEventT
  due_at t [] = []
  due_at t (ev ∷ evs) = if is_at t ev then ev ∷ due_at t evs else due_at t evs

  filed : String → TimeEventT → Assoc (List TimeEventT) → Assoc (List TimeEventT)
  filed hhmmss ev m = insert hhmmss (lookup_or [] hhmmss m ++ alert hhmmss ev ∷ []) m

  filed_lem :
      (t hhmmss : String) (ev : TimeEventT) (evs : List TimeEventT) (m : Assoc (List TimeEventT))
      → time_of clock ev ≡ done hhmmss
      → lookup_or [] t (filed hhmmss ev m) ++ map (alert t) (due_at t evs)
        ≡ lookup_or [] t m ++ map (alert t) (due_at t (ev ∷ evs))
  unfolding filed
  filed_lem t hhmmss ev evs m at =
      let here = lookup_or-insert [] hhmmss t (lookup_or [] hhmmss m ++ alert hhmmss ev ∷ []) m in
      let rest = map (alert t) (due_at t evs) in
      elim (Bool-cases (hhmmss == t)) [
        | inl e ↦
            let same : hhmmss ≡ t = (eq_iff hhmmss t).0 e in
            let due : due_at t (ev ∷ evs) ≡ ev ∷ due_at t evs = rw (ap (falls_at t) at ∙ e) refl in
            let found : lookup_or [] t (filed hhmmss ev m) ≡ lookup_or [] t m ++ alert t ev ∷ [] =
              here ∙ rw e (ap (λ x. lookup_or [] x m ++ alert x ev ∷ []) same) in
            ap (λ x. x ++ rest) found
            ∙ append_assoc (lookup_or [] t m) (alert t ev ∷ []) rest
            ∙ ap (λ x. lookup_or [] t m ++ map (alert t) x) (sym due)
        | inr e ↦
            let due : due_at t (ev ∷ evs) ≡ due_at t evs = rw (ap (falls_at t) at ∙ e) refl in
            let found : lookup_or [] t (filed hhmmss ev m) ≡ lookup_or [] t m = here ∙ rw e refl in
            ap (λ x. x ++ rest) found ∙ ap (λ x. lookup_or [] t m ++ map (alert t) x) (sym due)
      ]

  lookup_or-add_alerts :
      (t : String) (evs : List TimeEventT) (m m' : Assoc (List TimeEventT))
      → add_alerts clock evs m ≡ done m'
      → lookup_or [] t m' ≡ lookup_or [] t m ++ map (alert t) (due_at t evs)
  unfolding add_alerts filed
  lookup_or-add_alerts t [] m m' h =
      ap (lookup_or [] t) (sym (done-injective h)) ∙ sym (append-nil (lookup_or [] t m))
  lookup_or-add_alerts t (ev ∷ evs) m m' h =
      let (hhmmss, at, last) =
        >>=-eq-done (time_of clock ev)
          (λ hhmmss.
            add_alerts clock evs (insert hhmmss (lookup_or [] hhmmss m ++ alert hhmmss ev ∷ []) m))
          h in
      lookup_or-add_alerts t evs (filed hhmmss ev m) m' last ∙ filed_lem t hhmmss ev evs m at

  -- What LoadConfig keeps under a time are the events of the file that are due at this time, in the
  -- file's order, each under its name.
  pub load_config_lem :
      (t : String) (evs : List TimeEventT) (by_time : Assoc (List TimeEventT))
      → load_config clock (some evs) ≡ done (some by_time)
      → lookup_or [] t by_time ≡ map (alert t) (due_at t evs)
  unfolding load_config lookup_or lookup
  load_config_lem t evs by_time h =
      let (m, added, last) =
        >>=-eq-done (add_alerts clock evs []) (λ by_time. done (some by_time)) h in
      let same : m ≡ by_time = some_inj (done-injective last) in
      ap (lookup_or [] t) (sym same) ∙ lookup_or-add_alerts t evs [] m added
