-- ===== src/Time/Parsing.antt =====
-- getHhmmssFromString: which texts it accepts.
use aghast.Base.{
  ℕ, ◌≡◌, refl, String, Bool, true, false, some, List, get_elem?, split, if◌then◌else◌, inl, inr,
  ◌⊎◌, Outcome, done, ◌>>=◌,
}
use aghast.Base.Int.{ℤ, pos, ltb_ℤ}
use aghast.Time.{Clock, Parsed, zero_parsed, part, or_return, get_hhmmss_from_string}

module _ (clock : Clock) where
  open clock use {atoi}

  ap_part :
      (t u : List String) (i most : ℕ)
      → get_elem? t i ≡ get_elem? u i
      → part clock t i most ≡ part clock u i most
  unfolding part
  ap_part t u i most same = rw (part, same) refl

  -- The seconds are never looked at: two texts with the same hours and minutes give the same result.
  pub get_hhmmss_from_string_seconds :
      (s s' : String)
      → get_elem? (split b':' s) 0 ≡ get_elem? (split b':' s') 0
      → get_elem? (split b':' s) 1 ≡ get_elem? (split b':' s') 1
      → get_hhmmss_from_string clock s ≡ get_hhmmss_from_string clock s'
  unfolding get_hhmmss_from_string
  get_hhmmss_from_string_seconds s s' hours minutes =
      rw
        (
          ap_part (split b':' s) (split b':' s') 0 23 hours,
          ap_part (split b':' s) (split b':' s') 0 60 hours,
          ap_part (split b':' s) (split b':' s') 1 59 minutes,
        )
        refl

  part-some :
      (t : List String) (i most : ℕ) (piece : String) (n : ℤ)
      → get_elem? t i ≡ some piece
      → atoi piece ≡ some n
      → part clock t i most
        ≡ (if ltb_ℤ (pos most) n then done (inr (zero_parsed true)) else done (inl n))
  unfolding part
  part-some t i most piece n at read = rw (part, at, read) refl

  abbrev IsAccepted : Outcome Parsed → Type 0
  IsAccepted r = (p : Parsed) × (r ≡ done p) × (p.ok ≡ true)

  abbrev checked : Bool → ℤ → Outcome (ℤ ⊎ Parsed)
  checked b n = if b then done (inr (zero_parsed true)) else done (inl n)

  three-IsAccepted :
      (a b c : Bool) (h m : ℤ)
      → IsAccepted (
          checked a h >>= λ first. or_return clock first (λ hh. checked b m >>= λ second.
          or_return clock second (λ mm. checked c h >>= λ third.
          or_return clock third (λ ss. done (record { hh = hh; mm = mm; ss = ss; ok = true })))))
  unfolding or_return
  three-IsAccepted true b c h m = (zero_parsed true, refl, refl)
  three-IsAccepted false true c h m = (zero_parsed true, refl, refl)
  three-IsAccepted false false true h m = (zero_parsed true, refl, refl)
  three-IsAccepted false false false h m =
      (record { hh = h; mm = m; ss = h; ok = true }, refl, refl)

  -- Two numbers around a colon are accepted, whatever they are.
  pub get_hhmmss_from_string_ok :
      (s hours minutes : String) (h m : ℤ)
      → get_elem? (split b':' s) 0 ≡ some hours
      → get_elem? (split b':' s) 1 ≡ some minutes
      → atoi hours ≡ some h
      → atoi minutes ≡ some m
      → (p : Parsed) × (get_hhmmss_from_string clock s ≡ done p) × (p.ok ≡ true)
  unfolding get_hhmmss_from_string or_return
  get_hhmmss_from_string_ok s hours minutes h m at0 at1 nh nm =
      rw
        (
          part-some (split b':' s) 0 23 hours h at0 nh,
          part-some (split b':' s) 1 59 minutes m at1 nm,
          part-some (split b':' s) 0 60 hours h at0 nh,
        )
        (three-IsAccepted (ltb_ℤ (pos 23) h) (ltb_ℤ (pos 59) m) (ltb_ℤ (pos 60) h) h m)
