-- ===== src/Base/Decimal.antt =====
-- strconv.Itoa and strconv.Atoi on Go's 64-bit `int`.
use Prim.Native.Nat.{ℕ, zero, suc, ◌+◌, ◌-◌, ◌*◌, ◌/◌, ◌%◌, ◌^◌}
use Prim.Native.Char.{Char, code}
use Prim.Native.String
use Prim.Native.String.{String, [], ◌∷◌}
use mathlib.Core.Bool.{Bool, true, false, ◌||◌}
use mathlib.Core.Option.{Option, none, some}
use aghast.Base.Tests.{ltb, nat_comparable, ◌==◌, if◌then◌else◌}
use aghast.Base.Int.{ℤ, pos, negsuc}

abbrev pub digit : ℕ → Char
digit d = String.char_at "0123456789" d

-- The digits of n in front of `out`; `fuel` above n is enough.
unfoldable pub digits_of : (fuel n : ℕ) → String → String
digits_of zero n out = out
digits_of (suc fuel) n out =
    let longer = digit (n % 10) ∷ out in
    let rest = digits_of fuel (n / 10) longer in if n / 10 == 0 then longer else rest

abbrev pub minus_sign : Char
minus_sign = "-"

unfoldable pub itoa : ℤ → String
unfolding digits_of
itoa (pos n) = digits_of (suc n) n ""
itoa (negsuc n) = minus_sign ∷ digits_of (suc (suc n)) (suc n) ""

-- The number that the digits spell behind `n`; none where a character is no digit.
unfoldable pub scan : String → ℕ → Option ℕ
scan [] n = some n
scan (c ∷ s) n =
    let rest = scan s (n * 10 + (code c - b'0')) in
    if ltb (code c) b'0' || ltb b'9' (code c) then none else rest

abbrev pub in_range : Bool → ℕ → Option ℤ
in_range false n = if ltb n (2 ^ 63) then some (pos n) else none
in_range true zero = some (pos 0)
in_range true (suc n) = if ltb n (2 ^ 63) then some (negsuc n) else none

abbrev pub read_digits : Bool → String → Option ℤ
read_digits minus [] = none
read_digits minus (c ∷ s) = elim (scan (c ∷ s) 0) [ none ↦ none | some n ↦ in_range minus n ]

-- none: an error.
unfoldable pub atoi : String → Option ℤ
unfolding scan
atoi [] = none
atoi (c ∷ s) =
    if code c == b'-'
    then read_digits true s
    else if code c == b'+'
    then read_digits false s
    else read_digits false (c ∷ s)

-- What Atoi returns beside its error: 0 for a text that is no number, the nearest `int` for a number
-- that is out of range.
abbrev pub nearest : Bool → String → ℤ
nearest minus [] = pos 0
nearest minus (c ∷ s) = elim (scan (c ∷ s) 0) [
  | none ↦ pos 0
  | some n ↦ if minus then negsuc (2 ^ 63 - 1) else pos (2 ^ 63 - 1)
]

unfoldable pub atoi_value : String → ℤ
unfolding atoi
atoi_value s = elim (atoi s) [ some n ↦ n | none ↦ out_of_range s ]
  where
    out_of_range : String → ℤ
    out_of_range [] = pos 0
    out_of_range (c ∷ s) =
        if code c == b'-'
        then nearest true s
        else if code c == b'+'
        then nearest false s
        else nearest false (c ∷ s)
