-- ===== src/Base/TextOrder.antt =====
-- The order of texts is a strict linear order.
use Prim.Native.String.{String, [], ◌∷◌}
use mathlib.Core.Path.{◌≡◌, refl}
use mathlib.Core.Bool.{true, false}
use native.Mathlib.Omega.{arith}
use text.Mathlib.TextEquality.{Char-path}
use aghast.Base.Text.{str_lt}

pub str_lt_trans : (s t u : String) → str_lt s t ≡ true → str_lt t u ≡ true → str_lt s u ≡ true
unfolding str_lt
str_lt_trans [] [] u h k = absurd (cc)
str_lt_trans [] (d ∷ t) [] h k = absurd (cc)
str_lt_trans [] (d ∷ t) (e ∷ u) h k = refl
str_lt_trans (c ∷ s) [] u h k = absurd (cc)
str_lt_trans (c ∷ s) (d ∷ t) [] h k = absurd (cc)
str_lt_trans (c ∷ s) (d ∷ t) (e ∷ u) h k = ground (arith, str_lt_trans s t u)

pub str_lt_asymm : (s t : String) → str_lt s t ≡ true → str_lt t s ≡ false
unfolding str_lt
str_lt_asymm [] [] h = refl
str_lt_asymm [] (d ∷ t) h = refl
str_lt_asymm (c ∷ s) [] h = absurd (cc)
str_lt_asymm (c ∷ s) (d ∷ t) h = ground (arith, str_lt_asymm s t)

-- Texts of which neither is less are equal.
pub str_lt_connected : (s t : String) → str_lt s t ≡ false → str_lt t s ≡ false → s ≡ t
unfolding str_lt
str_lt_connected [] [] h k = refl
str_lt_connected [] (d ∷ t) h k = absurd (cc)
str_lt_connected (c ∷ s) [] h k = absurd (cc)
str_lt_connected (c ∷ s) (d ∷ t) h k = ground (arith, Char-path c d, str_lt_connected s t)
