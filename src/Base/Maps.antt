-- ===== src/Base/Maps.antt =====
-- A Go map with string keys, as an association list. Go leaves the order of iteration open, so a
-- loop over a map takes its order from the list, and what is proved of it says so.
use Prim.Native.String.{String}
use mathlib.Core.Path.{◌≡◌, refl}
use mathlib.Core.Option.{Option, none, some}
use mathlib.Core.List.{List, [], ◌∷◌}
use native.Mathlib.Omega.{arith}
use text.Mathlib.TextEquality.{eq_iff}
use text.Mathlib.TextPositions.{eq_refl}
use aghast.Base.Tests.{if◌then◌else◌, ◌==◌, string_comparable}

abbrev pub Assoc {ℓ} : Type ℓ → Type ℓ
Assoc V = List (String × V)

module _ {ℓ} {V : Type ℓ} where
  unfoldable pub lookup : String → Assoc V → Option V
  lookup key [] = none
  lookup key ((other, value) ∷ entries) = if other == key then some value else lookup key entries

  unfoldable pub insert : String → V → Assoc V → Assoc V
  insert key value [] = (key, value) ∷ []
  insert key value ((other, held) ∷ entries) =
      if other == key then (key, value) ∷ entries else (other, held) ∷ insert key value entries

  unfoldable pub erase : String → Assoc V → Assoc V
  erase key [] = []
  erase key ((other, held) ∷ entries) =
      if other == key then erase key entries else (other, held) ∷ erase key entries

  pub lookup-insert :
      (key other : String) (value : V) (entries : Assoc V)
      → lookup other (insert key value entries)
        ≡ (if key == other then some value else lookup other entries)
  unfolding lookup insert
  lookup-insert key other value [] = refl
  lookup-insert key other value ((first, held) ∷ entries) = ground (
    arith,
    eq_iff key other,
    eq_iff first key,
    eq_iff first other,
    lookup-insert key other value entries,
  )

  pub lookup-erase :
      (key other : String) (entries : Assoc V)
      → lookup other (erase key entries) ≡ (if key == other then none else lookup other entries)
  unfolding lookup erase
  lookup-erase key other [] = ground arith
  lookup-erase key other ((first, held) ∷ entries) = ground (
    arith,
    eq_iff key other,
    eq_iff first key,
    eq_iff first other,
    lookup-erase key other entries,
  )

  pub lookup-insert_self :
      (key : String) (value : V) (entries : Assoc V)
      → lookup key (insert key value entries) ≡ some value
  lookup-insert_self key value entries = simp (lookup-insert, eq_refl)

-- Reading a missing key of a Go map gives the type's zero value.
unfoldable pub lookup_or {ℓ} : {V : Type ℓ} → V → String → Assoc V → V
lookup_or zero_value key entries = elim (lookup key entries) [
  | none ↦ zero_value
  | some value ↦ value
]

module _ {ℓ} {V : Type ℓ} where
  pub lookup_or-some :
      (zero_value value : V) (key : String) (entries : Assoc V)
      → lookup key entries ≡ some value
      → lookup_or zero_value key entries ≡ value
  unfolding lookup_or
  lookup_or-some zero_value value key entries h = rw (lookup_or, h) refl

  pub lookup_or-none :
      (zero_value : V) (key : String) (entries : Assoc V)
      → lookup key entries ≡ none
      → lookup_or zero_value key entries ≡ zero_value
  unfolding lookup_or
  lookup_or-none zero_value key entries h = rw (lookup_or, h) refl

  pub lookup_or-insert :
      (zero_value : V) (key other : String) (value : V) (entries : Assoc V)
      → lookup_or zero_value other (insert key value entries)
        ≡ (if key == other then value else lookup_or zero_value other entries)
  unfolding lookup_or
  lookup_or-insert zero_value key other value entries =
      ground (arith, lookup-insert key other value entries)
