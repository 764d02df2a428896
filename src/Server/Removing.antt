-- ===== src/Server/Removing.antt =====
-- The loop that takes a name out of the list of configured integrations.
use aghast.Base.{
  ℕ, zero, suc, ◌+◌, ◌≡◌, refl, ap, ◌∙◌, sym, arith, String, Bool, true, false, not, ◌&&◌, some,
  List, [], ◌∷◌, ◌++◌, if◌then◌else◌, ◌==◌, string_comparable, eq_iff, get_elem?, get_elem?-middle,
  length, length-append, take, inl, inr, Bool-cases, Option-cases,
}
use mathlib.Core.List.{append_assoc}
use aghast.Server.{listed, drop, remove_from}

abbrev pub distinct : List String → Bool
distinct [] = true
distinct (x ∷ xs) = not (listed x xs) && distinct xs

-- The list without the first occurrence.
abbrev pub without : String → List String → List String
without name [] = []
without name (x ∷ xs) = if x == name then xs else x ∷ without name xs

get_elem?-listed :
    (xs : List String) (ix : ℕ) (x name : String)
    → get_elem? xs ix ≡ some x
    → listed name xs ≡ false
    → (x == name) ≡ false
get_elem?-listed [] ix x name e h = absurd (cc)
get_elem?-listed (y ∷ ys) zero x name e h = ground arith
get_elem?-listed (y ∷ ys) (suc ix) x name e h = get_elem?-listed ys ix x name e (ground arith)

remove_from-absent :
    (k ix : ℕ) (name : String) (xs : List String)
    → listed name xs ≡ false
    → remove_from k ix name xs ≡ xs
unfolding remove_from
remove_from-absent zero ix name xs h = refl
remove_from-absent (suc k) ix name xs h = elim (Option-cases (get_elem? xs ix)) [
  | inl e ↦ rw (remove_from, e) (remove_from-absent k (ix + 1) name xs h)
  | inr (x, e) ↦
      let other = get_elem?-listed xs ix x name e h in
      rw (remove_from, e, other) (remove_from-absent k (ix + 1) name xs h)
]

take-middle : (pre rest : List String) → take (length pre) (pre ++ rest) ≡ pre
take-middle [] rest = refl
take-middle (y ∷ pre) rest = ap (λ l. y ∷ l) (take-middle pre rest)

drop-middle :
    (pre : List String) (x : String) (rest : List String)
    → drop (length pre + 1) (pre ++ x ∷ rest) ≡ rest
drop-middle [] x rest = refl
drop-middle (y ∷ pre) x rest =
    let one_more : suc (length pre) + 1 ≡ suc (length pre + 1) = omega arith in
    ap (λ n. drop n (y ∷ (pre ++ x ∷ rest))) one_more ∙ drop-middle pre x rest

listed-append :
    (name : String) (xs ys : List String)
    → listed name xs ≡ false
    → listed name ys ≡ false
    → listed name (xs ++ ys) ≡ false
listed-append name [] ys h k = k
listed-append name (x ∷ xs) ys h k = ground (arith, listed-append name xs ys)

listed-ap :
    (xs : List String) (name other : String)
    → (name == other) ≡ true
    → listed name xs ≡ listed other xs
listed-ap xs name other e = ap (λ n. listed n xs) ((eq_iff name other).0 e)

remove_from_lem :
    (rest pre : List String) (ix : ℕ) (name : String)
    → ix ≡ length pre
    → listed name pre ≡ false
    → distinct rest ≡ true
    → remove_from (length rest) ix name (pre ++ rest) ≡ pre ++ without name rest
unfolding remove_from
remove_from_lem [] pre ix name e absent d = refl
remove_from_lem (x ∷ rest) pre ix name e absent d =
    let here : get_elem? (pre ++ x ∷ rest) ix ≡ some x =
      ap (get_elem? (pre ++ x ∷ rest)) e ∙ get_elem?-middle pre x rest in
    elim (Bool-cases (x == name)) [
      | inl f ↦
          let later : listed name rest ≡ false = ground (arith, listed-ap rest x name f) in
          let gone = listed-append name pre rest absent later in
          rw (remove_from, here, f, e, take-middle pre (x ∷ rest), drop-middle pre x rest)
            (remove_from-absent (length rest) (length pre + 1) name (pre ++ rest) gone)
      | inr f ↦
          let grown : pre ++ x ∷ rest ≡ (pre ++ x ∷ []) ++ rest =
            sym (append_assoc pre (x ∷ []) rest) in
          let longer = length-append pre (x ∷ []) in
          let absent' : listed name (pre ++ x ∷ []) ≡ false =
            listed-append name pre (x ∷ []) absent (rw f refl) in
          rw (remove_from, here, f)
            (ap (remove_from (length rest) (ix + 1) name) grown
              ∙ remove_from_lem rest (pre ++ x ∷ []) (ix + 1) name (omega (arith, longer)) absent'
                  (ground arith)
              ∙ append_assoc pre (x ∷ []) (without name rest))
    ]

-- With no name twice, the loop takes out the name that it is given.
pub remove_from-IsDistinct :
    (name : String) (xs : List String)
    → distinct xs ≡ true
    → remove_from (length xs) 0 name xs ≡ without name xs
remove_from-IsDistinct name xs d = remove_from_lem xs [] 0 name refl refl d

pub listed-without :
    (name other : String) (xs : List String)
    → distinct xs ≡ true
    → listed other (without name xs) ≡ (if name == other then false else listed other xs)
listed-without name other [] d = ground arith
listed-without name other (x ∷ xs) d =
    ground (arith, eq_iff name other, eq_iff x name, eq_iff x other, listed-without name other xs)

pub distinct-without :
    (name : String) (xs : List String) → distinct xs ≡ true → distinct (without name xs) ≡ true
distinct-without name [] d = refl
distinct-without name (x ∷ xs) d =
    ground (arith, listed-without name x xs, distinct-without name xs)
