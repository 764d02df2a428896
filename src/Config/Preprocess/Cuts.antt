-- ===== src/Config/Preprocess/Cuts.antt =====
-- Where PreprocessTOML cuts a labelled line.
use Prim.Native.Char.{Char, code}
use Prim.Native.String
use Prim.Native.String.{[], ◌∷◌}
use text.Mathlib.TextLemmas.{nil-append, cons-append, append-nil}
use aghast.Base.{
  ◌+◌, ℕ, ◌≡◌, refl, sym, ap, ◌∙◌, String, true, false, Option, none, some, ◌==◌, nat_comparable,
  arith, has_prefix, drop_prefix, count_char, inl, inr, Option-cases,
}
use aghast.Config.Preprocess.{cut, drop_last, until_closing}

-- The two parts of a cut, with more text in front.
abbrev behind : String → Option (String × String) → Option (String × String)
behind before none = none
behind before (some (b, after)) = some (String.◌++◌ before b, after)

-- Text without the label's first character is passed over.
cut-behind :
    (l : Char) (label before s : String)
    → count_char (code l) before ≡ 0
    → cut (l ∷ label) (String.◌++◌ before s) ≡ behind before (cut (l ∷ label) s)
unfolding cut count_char has_prefix
cut-behind l label [] s h = rw (nil-append s) (nothing_before (cut (l ∷ label) s))
  where
    nothing_before : (r : Option (String × String)) → r ≡ behind "" r
    nothing_before none = refl
    nothing_before (some (b, after)) = rw (nil-append b) refl
cut-behind l label (c ∷ before) s h =
    let differ : (code c == code l) ≡ false = ground arith in
    let later = cut-behind l label before s (ground arith) in
    elim (Option-cases (cut (l ∷ label) s)) [
      | inl e ↦
          let passed : cut (l ∷ label) (String.◌++◌ before s) ≡ none =
            later ∙ ap (behind before) e in
          rw (cons-append c before s, e, differ, passed) refl
      | inr ((b, after), e) ↦
          let passed : cut (l ∷ label) (String.◌++◌ before s) ≡ some (String.◌++◌ before b, after) =
            later ∙ ap (behind before) e in
          rw (cons-append c before s, e, differ, passed, cons-append c before b) refl
    ]

itself : (n : ℕ) → (n == n) ≡ true
itself n = ground arith

has_prefix-append : (p s : String) → has_prefix (String.◌++◌ p s) p ≡ true
unfolding has_prefix
has_prefix-append [] s = refl
has_prefix-append (c ∷ p) s = rw (cons-append c p s, itself (code c), has_prefix-append p s) refl

drop_prefix-append : (p s : String) → drop_prefix (String.◌++◌ p s) p ≡ some s
unfolding drop_prefix
drop_prefix-append [] s = rw (nil-append s) refl
drop_prefix-append (c ∷ p) s = rw (cons-append c p s) (drop_prefix-append p s)

cut-label :
    (l : Char) (label after : String)
    → cut (l ∷ label) (l ∷ String.◌++◌ label after) ≡ some ("", after)
unfolding cut has_prefix drop_prefix
cut-label l label after =
    rw (itself (code l), has_prefix-append label after, drop_prefix-append label after) refl

cut-absent : (l : Char) (label s : String) → count_char (code l) s ≡ 0 → cut (l ∷ label) s ≡ none
unfolding cut count_char has_prefix
cut-absent l label [] h = refl
cut-absent l label (c ∷ s) h =
    let differ : (code c == code l) ≡ false = ground arith in
    rw (differ, cut-absent l label s (ground arith)) refl

abbrev closing : Char
closing = ")"

pub until_closing-append :
    (name rest : String)
    → count_char b')' name ≡ 0
    → until_closing (String.◌++◌ name (String.◌++◌ ")" rest)) ≡ some name
unfolding until_closing count_char
until_closing-append [] rest h =
    rw (nil-append (String.◌++◌ ")" rest), cons-append closing "" rest) refl
until_closing-append (c ∷ name) rest h =
    let differ : (code c == b')') ≡ false = ground arith in
    let later = until_closing-append name rest (ground arith) in
    rw (cons-append c name (String.◌++◌ ")" rest), differ, later) refl

pub drop_last-append :
    (kept : String) (c : Char) → drop_last (String.◌++◌ kept (c ∷ "")) ≡ some kept
unfolding drop_last
drop_last-append [] c = rw (nil-append (c ∷ "")) refl
drop_last-append (d ∷ kept) c =
    rw (cons-append d kept (c ∷ ""), drop_last, drop_last-append kept c) refl

abbrev pub quote : Char
quote = "\""

abbrev exclamation : Char
exclamation = "!"

secret_label_first :
    (rest : String) → cut "!!SECRET(" (String.◌++◌ "!!SECRET(" rest) ≡ some ("", rest)
secret_label_first rest =
    rw (cons-append exclamation "!SECRET(" rest) (cut-label exclamation "!SECRET(" rest)

count_char-append :
    (sep : ℕ) (s t : String)
    → count_char sep (String.◌++◌ s t) ≡ count_char sep s + count_char sep t
unfolding count_char
count_char-append sep [] t = rw (nil-append t) (omega arith)
count_char-append sep (c ∷ s) t = rw (cons-append c s t) (omega (arith, count_char-append sep s t))

-- A name in its parentheses, and what follows.
abbrev pub named : (name rest : String) → String
named name rest = String.◌++◌ name (String.◌++◌ ")" rest)

-- `kept"label(name)rest`.
abbrev pub labelled : (kept label name rest : String) → String
labelled kept label name rest =
    String.◌++◌ (String.◌++◌ kept (quote ∷ "")) (String.◌++◌ label (named name rest))

plain_front :
    (kept : String) → count_char b'!' kept ≡ 0 → count_char b'!' (String.◌++◌ kept (quote ∷ "")) ≡ 0
unfolding count_char
plain_front kept h = count_char-append b'!' kept (quote ∷ "") ∙ rw h refl

pub secret_cut :
    (kept name rest : String)
    → count_char b'!' kept ≡ 0
    → cut "!!SECRET(" (labelled kept "!!SECRET(" name rest)
      ≡ some (String.◌++◌ kept (quote ∷ ""), named name rest)
secret_cut kept name rest h =
    let front = String.◌++◌ kept (quote ∷ "") in
    cut-behind exclamation "!SECRET(" front (String.◌++◌ "!!SECRET(" (named name rest))
      (plain_front kept h)
    ∙ ap (behind front) (secret_label_first (named name rest))
    ∙ ap (λ b. some (b, named name rest)) (append-nil front)

constant_first :
    (rest : String) → cut "!!CONSTANT(" (String.◌++◌ "!!CONSTANT(" rest) ≡ some ("", rest)
constant_first rest =
    rw (cons-append exclamation "!CONSTANT(" rest) (cut-label exclamation "!CONSTANT(" rest)

pub constant_cut :
    (kept name rest : String)
    → count_char b'!' kept ≡ 0
    → cut "!!CONSTANT(" (labelled kept "!!CONSTANT(" name rest)
      ≡ some (String.◌++◌ kept (quote ∷ ""), named name rest)
constant_cut kept name rest h =
    let front = String.◌++◌ kept (quote ∷ "") in
    cut-behind exclamation "!CONSTANT(" front (String.◌++◌ "!!CONSTANT(" (named name rest))
      (plain_front kept h)
    ∙ ap (behind front) (constant_first (named name rest))
    ∙ ap (λ b. some (b, named name rest)) (append-nil front)

plain_named :
    (name rest : String)
    → count_char b'!' name ≡ 0
    → count_char b'!' rest ≡ 0
    → count_char b'!' (String.◌++◌ "CONSTANT(" (named name rest)) ≡ 0
unfolding count_char
plain_named name rest h k =
    let label : count_char b'!' "CONSTANT(" ≡ 0 = refl in
    let bracket : count_char b'!' ")" ≡ 0 = refl in
    omega (
      arith,
      label,
      bracket,
      count_char-append b'!' "CONSTANT(" (named name rest),
      count_char-append b'!' name (String.◌++◌ ")" rest),
      count_char-append b'!' ")" rest,
    )

abbrev capital_c : Char
capital_c = "C"

no_secret :
    (tail : String)
    → count_char b'!' (String.◌++◌ "CONSTANT(" tail) ≡ 0
    → cut "!!SECRET(" (String.◌++◌ "!!CONSTANT(" tail) ≡ none
unfolding cut has_prefix
no_secret tail h =
    let first = cons-append capital_c "ONSTANT(" tail in
    let absent : cut "!!SECRET(" (capital_c ∷ String.◌++◌ "ONSTANT(" tail) ≡ none =
      cut-absent exclamation "!SECRET(" (capital_c ∷ String.◌++◌ "ONSTANT(" tail)
        (ap (count_char b'!') (sym first) ∙ h) in
    rw
      (
        cons-append exclamation "!CONSTANT(" tail,
        cons-append exclamation "CONSTANT(" tail,
        first,
        absent,
      )
      refl

pub constant_unlike :
    (kept name rest : String)
    → count_char b'!' kept ≡ 0
    → count_char b'!' name ≡ 0
    → count_char b'!' rest ≡ 0
    → cut "!!SECRET(" (labelled kept "!!CONSTANT(" name rest) ≡ none
constant_unlike kept name rest h i j =
    let front = String.◌++◌ kept (quote ∷ "") in
    cut-behind exclamation "!SECRET(" front (String.◌++◌ "!!CONSTANT(" (named name rest))
      (plain_front kept h)
    ∙ ap (behind front) (no_secret (named name rest) (plain_named name rest i j))
