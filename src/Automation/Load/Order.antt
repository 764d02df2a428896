-- ===== src/Automation/Load/Order.antt =====
-- The actions run in the order of their keys, whatever the order in which Go visits the map.
use mathlib.Core.List.{Perm, Permᴰ}
use mathlib.Core.List.Perm
use mathlib.Core.Logic.{∥∥₁_elim}
use text.Mathlib.TextEquality.{IsScalar-prop}
use aghast.Base.{
  String, false, ◌≡◌, refl, ◌∙◌, arith, List, [], ◌∷◌, str_lt, str_lt_trans, str_lt_asymm,
  str_lt_connected, Bool-cases, inl, inr,
}
use aghast.Automation.Load.{insert_sorted, sort_strings}

insert_sorted_comm :
    (a b : String) (xs : List String)
    → insert_sorted a (insert_sorted b xs) ≡ insert_sorted b (insert_sorted a xs)
unfolding insert_sorted
insert_sorted_comm a b [] = ground (arith, str_lt_asymm a b, str_lt_asymm b a, str_lt_connected a b)
insert_sorted_comm a b (x ∷ xs) = ground (
  arith,
  str_lt_asymm a b,
  str_lt_asymm b a,
  str_lt_connected a b,
  str_lt_asymm a x,
  str_lt_asymm b x,
  str_lt_asymm x a,
  str_lt_asymm x b,
  str_lt_trans a x b,
  str_lt_trans b x a,
  str_lt_trans x a b,
  str_lt_trans x b a,
  str_lt_trans a b x,
  str_lt_trans b a x,
  insert_sorted_comm a b xs,
)

sort-Permᴰ : {xs ys : List String} → Permᴰ xs ys → sort_strings xs ≡ sort_strings ys
unfolding sort_strings
sort-Permᴰ Permᴰ.nil = refl
sort-Permᴰ (Permᴰ.cons e p) = rw (e, sort-Permᴰ p)
sort-Permᴰ (Permᴰ.swap {a} {b} {l} e f) = rw (← e, ← f) (insert_sorted_comm a b (sort_strings l))
sort-Permᴰ (Permᴰ.trans p q) = sort-Permᴰ p ∙ sort-Permᴰ q

-- The sorted keys are the same for every order of the keys.
pub sort-perm : (xs ys : List String) → Perm xs ys → sort_strings xs ≡ sort_strings ys
sort-perm xs ys p = ∥∥₁_elim p (hlevel IsScalar-prop) sort-Permᴰ

-- Each key is at most the next.
abbrev pub IsSorted : List String → Type 0
IsSorted [] = Unit
IsSorted (x ∷ []) = Unit
IsSorted (x ∷ y ∷ r) = (str_lt y x ≡ false) × IsSorted (y ∷ r)

insert-IsSorted : (k : String) (xs : List String) → IsSorted xs → IsSorted (insert_sorted k xs)
unfolding insert_sorted
insert-IsSorted k [] h = tt
insert-IsSorted k (x ∷ []) h = ground (arith, str_lt_asymm x k)
insert-IsSorted k (x ∷ y ∷ r) h =
    ground (arith, str_lt_asymm x k, str_lt_asymm y k, insert-IsSorted k (y ∷ r))

pub sort-IsSorted : (xs : List String) → IsSorted (sort_strings xs)
unfolding sort_strings
sort-IsSorted [] = tt
sort-IsSorted (x ∷ xs) = insert-IsSorted x (sort_strings xs) (sort-IsSorted xs)

insert_sorted-perm : (k : String) (xs : List String) → Perm (insert_sorted k xs) (k ∷ xs)
unfolding insert_sorted
insert_sorted-perm k [] = Perm.refl (k ∷ [])
insert_sorted-perm k (x ∷ xs) = elim (Bool-cases (str_lt x k)) [
  | inl e ↦ rw e (Perm.trans (Perm.cons x (insert_sorted-perm k xs)) (Perm.swap k x xs))
  | inr e ↦ rw e (Perm.refl (k ∷ x ∷ xs))
]

pub sort-perm_self : (xs : List String) → Perm (sort_strings xs) xs
unfolding sort_strings
sort-perm_self [] = Perm.refl []
sort-perm_self (x ∷ xs) =
    Perm.trans (insert_sorted-perm x (sort_strings xs)) (Perm.cons x (sort-perm_self xs))
