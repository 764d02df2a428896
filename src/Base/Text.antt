-- ===== src/Base/Text.antt =====
-- What the program uses of Go's package strings, over texts of code points. Every separator and
-- prefix that the program passes is ASCII, so bytes and code points give the same pieces.
use Prim.Native.Nat.{ℕ, ◌+◌}
use Prim.Native.Char.{code}
use Prim.Native.String
use Prim.Native.String.{String, [], ◌∷◌}
use mathlib.Core.Bool.{Bool, true, false, ◌&&◌, ◌||◌}
use mathlib.Core.Option.{Option, none, some}
use mathlib.Core.List.{List}
use aghast.Base.Tests.{ltb, nat_comparable, ◌==◌, if◌then◌else◌}

-- strings.HasPrefix.
unfoldable pub has_prefix : String → String → Bool
has_prefix s [] = true
has_prefix [] (d ∷ p) = false
has_prefix (c ∷ s) (d ∷ p) = code c == code d && has_prefix s p

-- The text behind a prefix of the given length: `s[n:]`, none where the slice panics.
unfoldable pub drop_prefix : String → String → Option String
drop_prefix s [] = some s
drop_prefix [] (d ∷ p) = none
drop_prefix (c ∷ s) (d ∷ p) = drop_prefix s p

-- strings.Count of a separator of one character.
unfoldable pub count_char : ℕ → String → ℕ
count_char sep [] = 0
count_char sep (c ∷ s) = (if code c == sep then 1 else 0) + count_char sep s

-- strings.Split at a separator of one character: the first piece and the others.
unfoldable pub split_head : ℕ → String → String
split_head sep [] = ""
split_head sep (c ∷ s) = if code c == sep then "" else c ∷ split_head sep s

unfoldable pub split_rest : ℕ → String → List String
unfolding split_head
split_rest sep [] = List.[]
split_rest sep (c ∷ s) =
    let others = split_rest sep s in
    if code c == sep then List.◌∷◌ (split_head sep s) others else others

unfoldable pub split : ℕ → String → List String
unfolding split_rest
split sep s = List.◌∷◌ (split_head sep s) (split_rest sep s)

-- strings.Join with a separator of one character.
unfoldable pub join : String → List String → String
join sep List.[] = ""
join sep (List.◌∷◌ s List.[]) = s
join sep (List.◌∷◌ s (List.◌∷◌ t r)) = String.◌++◌ s (String.◌++◌ sep (join sep (List.◌∷◌ t r)))

-- `s < t`: the first difference decides (UTF-8 keeps the order of the code points).
unfoldable pub str_lt : String → String → Bool
str_lt [] [] = false
str_lt [] (d ∷ t) = true
str_lt (c ∷ s) [] = false
str_lt (c ∷ s) (d ∷ t) = ltb (code c) (code d) || (code c == code d && str_lt s t)
