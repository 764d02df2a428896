-- ===== src/Base/ReadBack.antt =====
-- strconv.Atoi reads back what strconv.Itoa writes.
use Prim.Native.Nat.{ℕ, zero, suc, ◌+◌, ◌*◌, ◌/◌, ◌%◌, ◌^◌, ◌<◌}
use Prim.Native.Char.{Char, code}
use Prim.Native.String.{String, ◌∷◌}
use mathlib.Core.Path.{◌≡◌, refl, ◌∙◌, ap}
use mathlib.Core.Logic.{inl, inr}
use mathlib.Core.Bool.{true, false, ◌||◌}
use mathlib.Core.Option.{none, some}
use native.Mathlib.Omega.{arith}
use aghast.Base.Tests.{ltb, nat_comparable, string_comparable, ◌==◌, Bool-cases}
use aghast.Base.Int.{ℤ, pos, negsuc}
use aghast.Base.Decimal.{digit, digits_of, itoa, scan, in_range, read_digits, atoi}

scan-digit : (d n : ℕ) (s : String) → d < 10 → scan (digit d ∷ s) n ≡ scan s (n * 10 + d)
unfolding scan
scan-digit zero n s h = refl
scan-digit (suc zero) n s h = refl
scan-digit (suc (suc zero)) n s h = refl
scan-digit (suc (suc (suc zero))) n s h = refl
scan-digit (suc (suc (suc (suc zero)))) n s h = refl
scan-digit (suc (suc (suc (suc (suc zero))))) n s h = refl
scan-digit (suc (suc (suc (suc (suc (suc zero)))))) n s h = refl
scan-digit (suc (suc (suc (suc (suc (suc (suc zero))))))) n s h = refl
scan-digit (suc (suc (suc (suc (suc (suc (suc (suc zero)))))))) n s h = refl
scan-digit (suc (suc (suc (suc (suc (suc (suc (suc (suc zero))))))))) n s h = refl
scan-digit (suc (suc (suc (suc (suc (suc (suc (suc (suc (suc d)))))))))) n s h =
    absurd (omega arith)

scan-digits_of : (fuel n : ℕ) (out : String) → n < fuel → scan (digits_of fuel n out) 0 ≡ scan out n
unfolding digits_of
scan-digits_of zero n out h = absurd (omega arith)
scan-digits_of (suc fuel) n out h = elim (Bool-cases (n / 10 == 0)) [
  | inl e ↦
      rw (digits_of, e)
        (scan-digit (n % 10) 0 out (omega arith)
          ∙ ap (scan out) (let z : n / 10 ≡ 0 = ground arith in omega arith))
  | inr e ↦
      rw (digits_of, e)
        (scan-digits_of fuel (n / 10) (digit (n % 10) ∷ out) (ground arith)
          ∙ scan-digit (n % 10) (n / 10) out (omega arith)
          ∙ ap (scan out) (omega arith))
]

digits_of_cons :
    (fuel n : ℕ) (c : Char) (out : String)
    → (d : Char) × (s : String) × (digits_of fuel n (c ∷ out) ≡ d ∷ s)
unfolding digits_of
digits_of_cons zero n c out = (c, out, refl)
digits_of_cons (suc fuel) n c out = elim (Bool-cases (n / 10 == 0)) [
  | inl e ↦ (digit (n % 10), c ∷ out, rw (digits_of, e) refl)
  | inr e ↦
      let (d, s, same) = digits_of_cons fuel (n / 10) (digit (n % 10)) (c ∷ out) in
      (d, s, rw (digits_of, e) same)
]

digits_of_some : (fuel n : ℕ) → (d : Char) × (s : String) × (digits_of (suc fuel) n "" ≡ d ∷ s)
unfolding digits_of
digits_of_some fuel n = elim (Bool-cases (n / 10 == 0)) [
  | inl e ↦ (digit (n % 10), "", rw (digits_of, e) refl)
  | inr e ↦
      let (d, s, same) = digits_of_cons fuel (n / 10) (digit (n % 10)) "" in
      (d, s, rw (digits_of, e) same)
]

scan_plain : (d : Char) (s : String) (n : ℕ) → scan (d ∷ s) 0 ≡ some n → b'/' < code d
unfolding scan
scan_plain d s n h = elim (Bool-cases (ltb (code d) b'0' || ltb b'9' (code d))) [
  | inl e ↦ absurd (let wrong : none ≡ some n = rw (scan, e) at h in cc)
  | inr e ↦ ground arith
]

atoi-digits :
    (d : Char) (s : String) (n : ℕ) → scan (d ∷ s) 0 ≡ some n → atoi (d ∷ s) ≡ in_range false n
unfolding atoi
atoi-digits d s n h =
    let plain = scan_plain d s n h in
    let minus : (code d == b'-') ≡ false = ground arith in
    let plus : (code d == b'+') ≡ false = ground arith in
    rw (atoi, minus, plus, read_digits, h) refl

-- An `int` in decimal, read again.
atoi-itoa_pos : (n : ℕ) → n < 2 ^ 63 → atoi (itoa (pos n)) ≡ some (pos n)
unfolding itoa scan
atoi-itoa_pos n h =
    let (d, s, same) = digits_of_some n n in
    let value : scan (d ∷ s) 0 ≡ some n = rw same at (scan-digits_of (suc n) n "" (omega arith)) in
    let fits : ltb n (2 ^ 63) ≡ true = ground arith in
    rw same (atoi-digits d s n value ∙ rw fits refl)

atoi-itoa_negsuc : (n : ℕ) → n < 2 ^ 63 → atoi (itoa (negsuc n)) ≡ some (negsuc n)
unfolding itoa atoi
atoi-itoa_negsuc n h =
    let (d, s, same) = digits_of_some (suc n) (suc n) in
    let value : scan (d ∷ s) 0 ≡ some (suc n) =
      rw same at (scan-digits_of (suc (suc n)) (suc n) "" (omega arith)) in
    let fits : ltb n (2 ^ 63) ≡ true = ground arith in
    rw (same, atoi, read_digits, value, fits) refl

-- The numbers that an `int` holds.
abbrev pub IsInt64 : ℤ → Type 0
IsInt64 (pos n) = n < 2 ^ 63
IsInt64 (negsuc n) = n < 2 ^ 63

pub atoi-itoa : (z : ℤ) → IsInt64 z → atoi (itoa z) ≡ some z
atoi-itoa (pos n) h = atoi-itoa_pos n h
atoi-itoa (negsuc n) h = atoi-itoa_negsuc n h
