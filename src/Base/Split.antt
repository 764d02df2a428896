-- ===== src/Base/Split.antt =====
-- Laws of splitting a text at a separator.
use Prim.Native.Nat.{ℕ, ◌+◌, ◌≤◌}
use Prim.Native.Char.{Char, code}
use Prim.Native.String.{String, [], ◌∷◌}
use mathlib.Core.Path.{◌≡◌, refl, sym}
use mathlib.Core.Logic.{inl, inr}
use mathlib.Core.List.{List}
use native.Mathlib.Nat.{le_trans}
use text.Mathlib.TextLemmas.{nil≢cons, cons≢nil, cons-eq-cons}
use native.Mathlib.Omega.{arith}
use text.Mathlib.TextEquality.{Char-path}
use aghast.Base.Tests.{nat_comparable, ◌==◌, Bool-cases}
use aghast.Base.Lists.{length, All, All-map}
use aghast.Base.Text.{count_char, split_head, split_rest, split}

length-split_rest : (sep : ℕ) (s : String) → length (split_rest sep s) ≡ count_char sep s
unfolding count_char split_rest
length-split_rest sep [] = refl
length-split_rest sep (c ∷ s) = ground (arith, length-split_rest sep s)

pub length-split : (sep : ℕ) (s : String) → length (split sep s) ≡ count_char sep s + 1
unfolding split
length-split sep s = omega (arith, length-split_rest sep s)

split_parts-nil :
    (sep : ℕ) (s : String) → split_head sep s ≡ "" → split_rest sep s ≡ List.[] → s ≡ ""
unfolding split_rest
split_parts-nil sep [] h k = refl
split_parts-nil sep (c ∷ s) h k = elim (Bool-cases (code c == sep)) [
  | inl e ↦ let k' = rw e at k in ground arith
  | inr e ↦ let h' = rw e at h in absurd (cons≢nil h')
]

split_parts-injective :
    (sep : ℕ) (s t : String)
    → split_head sep s ≡ split_head sep t
    → split_rest sep s ≡ split_rest sep t
    → s ≡ t
unfolding split_rest
split_parts-injective sep [] t h k = sym (split_parts-nil sep t (sym h) (sym k))
split_parts-injective sep (c ∷ s) [] h k = split_parts-nil sep (c ∷ s) h k
split_parts-injective sep (c ∷ s) (d ∷ t) h k = elim (Bool-cases (code c == sep)) [
  | inl e ↦ elim (Bool-cases (code d == sep)) [
    | inl f ↦
        let k' = rw (e, f) at k in
        cc (Char-path c d (ground arith), split_parts-injective sep s t (cc) (cc))
    | inr f ↦ let h' = rw (e, f) at h in absurd (nil≢cons h')
  ]
  | inr e ↦ elim (Bool-cases (code d == sep)) [
    | inl f ↦ let h' = rw (e, f) at h in absurd (cons≢nil h')
    | inr f ↦
        let h' = cons-eq-cons.0 (rw (e, f) at h) in
        let k' = rw (e, f) at k in cc (h'.0, split_parts-injective sep s t h'.1 k')
  ]
]

pub split-injective : (sep : ℕ) (s t : String) → split sep s ≡ split sep t → s ≡ t
unfolding split
split-injective sep s t h = split_parts-injective sep s t (ground arith) (ground arith)

-- A piece holds no more of any character than the text.
count_char-head-le : (x sep : ℕ) (s : String) → count_char x (split_head sep s) ≤ count_char x s
unfolding count_char split_head
count_char-head-le x sep [] = omega arith
count_char-head-le x sep (c ∷ s) = elim (Bool-cases (code c == sep)) [
  | inl e ↦ rw e (omega arith)
  | inr e ↦ rw e (omega (arith, count_char-head-le x sep s))
]

count_char-le-cons : (x : ℕ) (c : Char) (s : String) → count_char x s ≤ count_char x (c ∷ s)
unfolding count_char
count_char-le-cons x c s = omega arith

Narrow : ℕ → String → String → Type 0
Narrow x s piece = count_char x piece ≤ count_char x s

count_char-rest-le : (x sep : ℕ) (s : String) → All (Narrow x s) (split_rest sep s)
unfolding split_rest Narrow
count_char-rest-le x sep [] = tt
count_char-rest-le x sep (c ∷ s) =
    let wide = count_char-le-cons x c s in
    let more : All (Narrow x (c ∷ s)) (split_rest sep s) =
      All-map (Narrow x s) (Narrow x (c ∷ s)) (split_rest sep s) (λ piece h. le_trans h wide)
        (count_char-rest-le x sep s) in
    elim (Bool-cases (code c == sep)) [
      | inl e ↦ rw e (le_trans (count_char-head-le x sep s) wide, more)
      | inr e ↦ rw e more
    ]

pub count_char-split-le :
    (x sep : ℕ) (s : String) → All (λ piece. count_char x piece ≤ count_char x s) (split sep s)
unfolding split Narrow
count_char-split-le x sep s = (count_char-head-le x sep s, count_char-rest-le x sep s)
