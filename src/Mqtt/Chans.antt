-- ===== src/Mqtt/Chans.antt =====
-- removeChan: the list without the channel, as a multiset.
use mathlib.Core.List.{Memᴰ, Perm}
use mathlib.Core.List.Perm
use aghast.Base.{
  ℕ, zero, suc, ◌+◌, ◌-◌, ◌<◌, ◌≡◌, refl, inl, inr, arith, List, [], ◌∷◌, ◌==◌, nat_comparable,
  length, get_elem?, set, take, get_elem?_of_lt, get_elem?-some_lt, none, some, Bool-cases, done,
}
use aghast.Mqtt.{remove_chan, index_from}

init_last :
    (y z : ℕ) (ys : List ℕ)
    → get_elem? (y ∷ ys) (length ys) ≡ some z
    → Perm (z ∷ take (length ys) (y ∷ ys)) (y ∷ ys)
init_last y z [] h = let same : z ≡ y = ground arith in rw same (Perm.refl (y ∷ []))
init_last y z (x ∷ xs) h =
    Perm.trans (Perm.swap y z (take (length xs) (x ∷ xs))) (Perm.cons y (init_last x z xs h))

swap_last :
    (i y z c : ℕ) (ys : List ℕ)
    → get_elem? (y ∷ ys) i ≡ some c
    → get_elem? (y ∷ ys) (length ys) ≡ some z
    → Perm (c ∷ take (length ys) (set (y ∷ ys) i z)) (y ∷ ys)
swap_last zero y z c [] h k = let same : c ≡ y = ground arith in rw same (Perm.refl (y ∷ []))
swap_last zero y z c (x ∷ xs) h k =
    let same : c ≡ y = ground arith in rw same (Perm.cons y (init_last x z xs k))
swap_last (suc i) y z c [] h k = absurd (cc)
swap_last (suc i) y z c (x ∷ xs) h k =
    Perm.trans (Perm.swap y c (take (length xs) (set (x ∷ xs) i z)))
      (Perm.cons y (swap_last i x z c xs h k))

remove_chan_in_range :
    (y z i : ℕ) (ys : List ℕ)
    → get_elem? (y ∷ ys) (length ys) ≡ some z
    → i < suc (length ys)
    → remove_chan (y ∷ ys) i ≡ done (take (length ys) (set (y ∷ ys) i z))
unfolding remove_chan
remove_chan_in_range y z i ys at inside =
    let last : suc (length ys) - 1 ≡ length ys = omega arith in
    rw (last, remove_chan) (rw (at, remove_chan) (ground arith))

-- Removing the channel at an index in range gives a list that holds all the others, as often.
pub remove_chan-perm :
    (chans : List ℕ) (i c : ℕ)
    → get_elem? chans i ≡ some c
    → (rest : List ℕ) × (remove_chan chans i ≡ done rest) × Perm (c ∷ rest) chans
unfolding remove_chan
remove_chan-perm [] i c h = absurd (cc)
remove_chan-perm (y ∷ ys) i c h =
    let (z, at) = get_elem?_of_lt (y ∷ ys) (length ys) (omega arith) in
    let inside = get_elem?-some_lt (y ∷ ys) i h in
    (
      take (length ys) (set (y ∷ ys) i z),
      remove_chan_in_range y z i ys at inside,
      swap_last i y z c ys h at,
    )

pub index_from-some :
    (ix ch : ℕ) (xs : List ℕ) (k : ℕ)
    → index_from ix ch xs ≡ some k
    → (j : ℕ) × (k ≡ ix + j) × (get_elem? xs j ≡ some ch)
unfolding index_from
index_from-some ix ch [] k h = absurd (cc)
index_from-some ix ch (x ∷ xs) k h = elim (Bool-cases (x == ch)) [
  | inl e ↦ (0, ground arith, ground arith)
  | inr e ↦
      let (j, same, at) = index_from-some (ix + 1) ch xs k (ground arith) in
      (suc j, omega arith, at)
]

pub index_from_mem :
    (ix ch : ℕ) (xs : List ℕ) → Memᴰ ch xs → (k : ℕ) × (index_from ix ch xs ≡ some k)
unfolding index_from
index_from_mem ix ch [] m = elim m [ ]
index_from_mem ix ch (x ∷ xs) (Memᴰ.head e) = (ix, ground arith)
index_from_mem ix ch (x ∷ xs) (Memᴰ.tail m) = elim (Bool-cases (x == ch)) [
  | inl e ↦ (ix, ground arith)
  | inr e ↦ let (k, at) = index_from_mem (ix + 1) ch xs m in (k, ground arith)
]

pub index_from_absent : (ix ch : ℕ) (xs : List ℕ) → ¬ (Memᴰ ch xs) → index_from ix ch xs ≡ none
unfolding index_from
index_from_absent ix ch [] h = refl
index_from_absent ix ch (x ∷ xs) h = elim (Bool-cases (x == ch)) [
  | inl e ↦ absurd (h (Memᴰ.head (ground arith)))
  | inr e ↦ let later = index_from_absent (ix + 1) ch xs (λ m. h (Memᴰ.tail m)) in ground arith
]
