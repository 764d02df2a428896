-- ===== src/Config/Enabling.antt =====
-- ChangeEnabled: which line of the file it changes.
use aghast.Base.{
  some_inj, ◌≡◌, refl, ap, ◌∙◌, String, Bool, true, false, Option, none, some, List, [], ◌∷◌,
  has_prefix, split, split_head, split_rest, join, count_char, Bool-cases, inl, inr, All, IsPlain,
  split-IsPlain, split-join,
}
use aghast.Config.{enabled_line, rewrite_lines, change_enabled}

-- The first line that begins with Enabled is another, and no more.
pub data Rewritten (new : String) : List String → List String → Type 0 where
  nowhere : Rewritten new [] []
  here :
      {line : String} {lines : List String}
      → has_prefix line "Enabled" ≡ true
      → Rewritten new (line ∷ lines) (new ∷ lines)
  later :
      {line : String} {lines lines' : List String}
      → has_prefix line "Enabled" ≡ false
      → Rewritten new lines lines'
      → Rewritten new (line ∷ lines) (line ∷ lines')

rewrite_lines-Rewritten :
    (b : Bool) (lines : List String) → Rewritten (enabled_line b) lines (rewrite_lines b lines)
unfolding rewrite_lines
rewrite_lines-Rewritten b [] = nowhere
rewrite_lines-Rewritten b (line ∷ lines) = elim (Bool-cases (has_prefix line "Enabled")) [
  | inl e ↦ rw e (here e)
  | inr e ↦ rw e (later e (rewrite_lines-Rewritten b lines))
]

enabled_line-IsPlain : (b : Bool) → IsPlain b'\n' (enabled_line b)
unfolding count_char
enabled_line-IsPlain true = refl
enabled_line-IsPlain false = refl

rewrite_lines-IsPlain :
    (b : Bool) (lines : List String)
    → All (IsPlain b'\n') lines
    → All (IsPlain b'\n') (rewrite_lines b lines)
unfolding rewrite_lines
rewrite_lines-IsPlain b [] h = tt
rewrite_lines-IsPlain b (line ∷ lines) (p, h) = elim (Bool-cases (has_prefix line "Enabled")) [
  | inl e ↦ rw e (enabled_line-IsPlain b, h)
  | inr e ↦ rw e (p, rewrite_lines-IsPlain b lines h)
]

split-join-rewrite_lines :
    (b : Bool) (lines : List String)
    → All (IsPlain b'\n') lines
    → (line : String) (rest : List String) → lines ≡ line ∷ rest
    → split b'\n' (join "\n" (rewrite_lines b lines)) ≡ rewrite_lines b lines
unfolding rewrite_lines
split-join-rewrite_lines b [] h line rest e = absurd (cc)
split-join-rewrite_lines b (l ∷ ls) h line rest e =
    let plain = rewrite_lines-IsPlain b (l ∷ ls) h in
    elim (Bool-cases (has_prefix l "Enabled")) [
      | inl f ↦ rw f (split-join (enabled_line b) ls (rw f at plain))
      | inr f ↦ rw f (split-join l (rewrite_lines b ls) (rw f at plain))
    ]

lines-change_enabled :
    (b : Bool) (conf : String)
    → split b'\n' (join "\n" (rewrite_lines b (split b'\n' conf)))
      ≡ rewrite_lines b (split b'\n' conf)
unfolding split
lines-change_enabled b conf =
    split-join-rewrite_lines b (split b'\n' conf) (split-IsPlain b'\n' conf) (split_head b'\n' conf)
      (split_rest b'\n' conf) refl

enabled_line_found : (b : Bool) → has_prefix (enabled_line b) "Enabled" ≡ true
unfolding has_prefix
enabled_line_found true = refl
enabled_line_found false = refl

rewrite_lines_twice :
    (b c : Bool) (lines : List String)
    → rewrite_lines b (rewrite_lines c lines) ≡ rewrite_lines b lines
unfolding rewrite_lines
rewrite_lines_twice b c [] = refl
rewrite_lines_twice b c (line ∷ lines) = elim (Bool-cases (has_prefix line "Enabled")) [
  | inl e ↦ rw e (rw (enabled_line_found c) refl)
  | inr e ↦ rw e (rw e (ap (λ ls. line ∷ ls) (rewrite_lines_twice b c lines)))
]

-- ChangeEnabled of a file that can be read gives a file in which the first line that begins with
-- Enabled says the new state, and every other line is as before; a file without such a line stays.
pub change_enabled-Rewritten :
    (b : Bool) (conf conf' : String)
    → change_enabled b (some conf) ≡ some conf'
    → Rewritten (enabled_line b) (split b'\n' conf) (split b'\n' conf')
unfolding change_enabled
change_enabled-Rewritten b conf conf' h =
    rw (← some_inj h, lines-change_enabled b conf) (rewrite_lines-Rewritten b (split b'\n' conf))

-- After two changes the file is as after the second alone.
pub change_enabled_twice :
    (b c : Bool) (conf : Option String)
    → change_enabled b (change_enabled c conf) ≡ change_enabled b conf
unfolding change_enabled
change_enabled_twice b c none = refl
change_enabled_twice b c (some conf) =
    ap (λ ls. some (join "\n" (rewrite_lines b ls))) (lines-change_enabled c conf)
    ∙ ap (λ ls. some (join "\n" ls)) (rewrite_lines_twice b c (split b'\n' conf))
