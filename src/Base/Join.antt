-- ===== src/Base/Join.antt =====
-- Splitting at a newline undoes joining with newlines.
use Prim.Native.Nat.{ℕ}
use Prim.Native.Char.{Char, code}
use Prim.Native.String.{String, [], ◌∷◌}
use Prim.Native.String
use mathlib.Core.Path.{◌≡◌, refl, ap, ◌∙◌}
use mathlib.Core.Logic.{inl, inr}
use mathlib.Core.List.{List}
use text.Mathlib.TextLemmas.{nil-append, cons-append}
use native.Mathlib.Omega.{arith}
use aghast.Base.Tests.{nat_comparable, ◌==◌, Bool-cases}
use aghast.Base.Lists.{All}
use aghast.Base.Split.{split-injective}
use aghast.Base.Text.{count_char, split_head, split_rest, split, join}

-- A text with no such character in it.
abbrev pub IsPlain : ℕ → String → Type 0
IsPlain sep s = count_char sep s ≡ 0

head-IsPlain : (sep : ℕ) (s : String) → IsPlain sep (split_head sep s)
unfolding count_char split_head
head-IsPlain sep [] = refl
head-IsPlain sep (c ∷ s) = elim (Bool-cases (code c == sep)) [
  | inl e ↦ rw e refl
  | inr e ↦ rw e (ground (arith, head-IsPlain sep s))
]

rest-IsPlain : (sep : ℕ) (s : String) → All (IsPlain sep) (split_rest sep s)
unfolding split_rest
rest-IsPlain sep [] = tt
rest-IsPlain sep (c ∷ s) = elim (Bool-cases (code c == sep)) [
  | inl e ↦ rw e (head-IsPlain sep s, rest-IsPlain sep s)
  | inr e ↦ rw e (rest-IsPlain sep s)
]

pub split-IsPlain : (sep : ℕ) (s : String) → All (IsPlain sep) (split sep s)
unfolding split
split-IsPlain sep s = (head-IsPlain sep s, rest-IsPlain sep s)

-- A plain text is its own only piece.
head_plain : (sep : ℕ) (s : String) → IsPlain sep s → split_head sep s ≡ s
unfolding split_head count_char
head_plain sep [] h = refl
head_plain sep (c ∷ s) h = elim (Bool-cases (code c == sep)) [
  | inl e ↦ absurd (ground arith)
  | inr e ↦ rw e (ap (λ x. c ∷ x) (head_plain sep s (ground arith)))
]

rest_plain : (sep : ℕ) (s : String) → IsPlain sep s → split_rest sep s ≡ List.[]
unfolding split_rest count_char
rest_plain sep [] h = refl
rest_plain sep (c ∷ s) h = elim (Bool-cases (code c == sep)) [
  | inl e ↦ absurd (ground arith)
  | inr e ↦ rw e (rest_plain sep s (ground arith))
]

split_plain : (sep : ℕ) (s : String) → IsPlain sep s → split sep s ≡ List.◌∷◌ s List.[]
unfolding split
split_plain sep s h = rw (head_plain sep s h, rest_plain sep s h) refl

abbrev newline : Char
newline = "\n"

newline_cons : (t : String) → String.◌++◌ "\n" t ≡ newline ∷ t
newline_cons t = cons-append newline "" t ∙ ap (λ x. newline ∷ x) (nil-append t)

line_head : (s t : String) → IsPlain b'\n' s → split_head b'\n' (String.◌++◌ s (newline ∷ t)) ≡ s
unfolding split_head count_char
line_head [] t h = rw (nil-append (newline ∷ t)) refl
line_head (c ∷ s) t h = elim (Bool-cases (code c == b'\n')) [
  | inl e ↦ absurd (ground arith)
  | inr e ↦ rw (cons-append c s (newline ∷ t), e) (ap (λ x. c ∷ x) (line_head s t (ground arith)))
]

line_rest :
    (s t : String)
    → IsPlain b'\n' s
    → split_rest b'\n' (String.◌++◌ s (newline ∷ t)) ≡ split b'\n' t
unfolding split split_rest count_char
line_rest [] t h = rw (nil-append (newline ∷ t)) refl
line_rest (c ∷ s) t h = elim (Bool-cases (code c == b'\n')) [
  | inl e ↦ absurd (ground arith)
  | inr e ↦ rw (cons-append c s (newline ∷ t), e) (line_rest s t (ground arith))
]

split_line :
    (s t : String)
    → IsPlain b'\n' s
    → split b'\n' (String.◌++◌ s (String.◌++◌ "\n" t)) ≡ List.◌∷◌ s (split b'\n' t)
unfolding split
split_line s t h = rw (newline_cons t, line_head s t h, line_rest s t h) refl

pub split-join :
    (s : String) (ss : List String)
    → All (IsPlain b'\n') (List.◌∷◌ s ss)
    → split b'\n' (join "\n" (List.◌∷◌ s ss)) ≡ List.◌∷◌ s ss
unfolding join
split-join s List.[] (h, _) = split_plain b'\n' s h
split-join s (List.◌∷◌ t ts) (h, k) =
    split_line s (join "\n" (List.◌∷◌ t ts)) h ∙ ap (List.◌∷◌ s) (split-join t ts k)

pub join-split : (s : String) → join "\n" (split b'\n' s) ≡ s
unfolding split
join-split s =
    split-injective b'\n' (join "\n" (split b'\n' s)) s
      (split-join (split_head b'\n' s) (split_rest b'\n' s) (split-IsPlain b'\n' s))
