-- ===== src/Events/Names.antt =====
-- Which events reach which subscription: the tests of eventManager against the rule that the
-- subscription's fields are the event's, or "+".
use mathlib.Core.List.{List, [], ◌∷◌}
use aghast.Base.{
  suc, ◌≤◌, ◌<◌, ◌≡◌, refl, ap, ◌↔◌, inl, inr, String, true, arith, ◌==◌, nat_comparable,
  string_comparable, eq_iff, ltb, length, All, count_char, split, length-split, split-injective,
  count_char-split-le, Bool-cases,
}
use mathlib.Core.Path.{subst}
use aghast.Events.{reaches, fields_match, wildcard_match}

pub data FieldMatches (field : String) (sub : String) : Type 0 where
  same : field ≡ sub → FieldMatches field sub
  plus : sub ≡ "+" → FieldMatches field sub

-- Field by field, and as many of the one as of the other.
pub data Matches : List String → List String → Type 0 where
  nothing : Matches [] []
  field :
      {e s : String} {es ss : List String}
      → FieldMatches e s
      → Matches es ss
      → Matches (e ∷ es) (s ∷ ss)

fields_match_sound :
    (es ss : List String) → length es ≡ length ss → fields_match es ss ≡ true → Matches es ss
unfolding fields_match
fields_match_sound [] [] l h = nothing
fields_match_sound [] (s ∷ ss) l h = absurd (omega arith)
fields_match_sound (e ∷ es) [] l h = absurd (omega arith)
fields_match_sound (e ∷ es) (s ∷ ss) l h = elim (Bool-cases (e == s)) [
  | inl p ↦ field (same ((eq_iff e s).0 p)) (fields_match_sound es ss (omega arith) (ground arith))
  | inr p ↦
      field (plus ((eq_iff s "+").0 (ground arith)))
        (fields_match_sound es ss (omega arith) (ground arith))
]

fields_match_complete : {es ss : List String} → Matches es ss → fields_match es ss ≡ true
unfolding fields_match
fields_match_complete nothing = refl
fields_match_complete (field {e} {s} {es} {ss} (same p) m) =
    ground (arith, eq_iff e s, fields_match_complete m)
fields_match_complete (field {e} {s} {es} {ss} (plus p) m) =
    ground (arith, eq_iff s "+", fields_match_complete m)

Matches-length : {es ss : List String} → Matches es ss → length es ≡ length ss
Matches-length nothing = refl
Matches-length (field p m) = ap suc (Matches-length m)

Matches-refl : (es : List String) → Matches es es
Matches-refl [] = nothing
Matches-refl (e ∷ es) = field (same refl) (Matches-refl es)

-- The wildcard loop accepts a subscription exactly when it holds a "+" somewhere and matches.
pub wildcard_match_iff :
    (key name : String)
    → (wildcard_match key name ≡ true)
      ↔ ((0 < count_char b'+' key) × Matches (split b'/' name) (split b'/' key))
unfolding wildcard_match
wildcard_match_iff key name = (
  λ h. (
    ground arith,
    fields_match_sound (split b'/' name) (split b'/' key)
        (ground (arith, length-split b'/' name, length-split b'/' key)) (ground arith),
  ),
  λ r. ground (
    arith,
    length-split b'/' name,
    length-split b'/' key,
    Matches-length (r.1),
    fields_match_complete (r.1),
  ),
)

without_plus : (s : String) → s ≡ "+" → 0 < count_char b'+' s
unfolding count_char
without_plus s h = rw h (omega arith)

Matches-eq :
    {es ss : List String} → Matches es ss → All (λ piece. count_char b'+' piece ≤ 0) ss → es ≡ ss
Matches-eq nothing a = refl
Matches-eq (field (same p) m) a = cc (Matches-eq m a.1)
Matches-eq (field {s} (plus p) m) a = absurd (omega (arith, without_plus s p, a.0))

-- An event reaches a subscription, by its exact name or by the wildcard loop, exactly when each
-- field of the subscription's key is the event's field at that place or "+", and there are as many.
pub reaches_iff :
    (key name : String) → (reaches key name ≡ true) ↔ Matches (split b'/' name) (split b'/' key)
reaches_iff key name = (
  λ h. elim (Bool-cases (key == name)) [
    | inl e ↦ rw ((eq_iff key name).0 e) (Matches-refl (split b'/' name))
    | inr e ↦ ((wildcard_match_iff key name).0 (ground arith)).1
  ],
  λ m. elim (Bool-cases (ltb 0 (count_char b'+' key))) [
    | inl some_plus ↦ ground (arith, (wildcard_match_iff key name).1 (ground arith, m))
    | inr no_plus ↦
        let fields : split b'/' name ≡ split b'/' key = Matches-eq m (
          subst (λ n. All (λ piece. count_char b'+' piece ≤ n) (split b'/' key)) (ground arith)
            (count_char-split-le b'+' b'/' key)) in
        ground (arith, eq_iff key name, split-injective b'/' name key fields)
  ],
)
