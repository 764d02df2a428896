-- ===== src/Base/Buffers.antt =====
-- Buffered channels, as a list of the messages that wait in each: what one write changes.
use Prim.Native.Nat.{ℕ, zero, suc, ◌+◌}
use mathlib.Core.Path.{◌≡◌, refl, sym, ap, ◌∙◌}
use mathlib.Core.Logic.{inl, inr}
use mathlib.Core.List.{List, [], ◌∷◌, ◌++◌, append-nil, append_assoc}
use mathlib.Core.Option.{Option, none, some}
use native.Mathlib.Nat.{zero-add, suc-add}
use native.Mathlib.Omega.{arith}
use aghast.Base.Lists.{
  get_elem?, set, replicate, get_elem?-set_self, get_elem?-set_ne, get_elem?-some_lt,
}
use aghast.Base.Tests.{◌==◌, nat_comparable, if◌then◌else◌, Bool-cases}

module _ {ℓ} {A : Type ℓ} where
  -- A buffer with `n` more copies of the message, where there is such a buffer.
  abbrev pub with_copies : ℕ → A → Option (List A) → Option (List A)
  with_copies n msg none = none
  with_copies n msg (some waiting) = some (waiting ++ replicate n msg)

  replicate-add : (m n : ℕ) (msg : A) → replicate m msg ++ replicate n msg ≡ replicate (m + n) msg
  replicate-add zero n msg = rw zero-add
  replicate-add (suc m) n msg = rw (suc-add, replicate-add m n msg)

  pub with_copies_zero : (msg : A) (b : Option (List A)) → with_copies 0 msg b ≡ b
  with_copies_zero msg none = refl
  with_copies_zero msg (some waiting) = rw (append-nil waiting)

  pub with_copies_add :
      (m n : ℕ) (msg : A) (b : Option (List A))
      → with_copies n msg (with_copies m msg b) ≡ with_copies (m + n) msg b
  with_copies_add m n msg none = refl
  with_copies_add m n msg (some waiting) =
      ap some
        (append_assoc waiting (replicate m msg) (replicate n msg) ∙ rw (replicate-add m n msg))

  -- One write to the channel `ch`.
  pub get_elem?-write :
      (msg : A) (ch c : ℕ) (waiting : List A) (buffers : List (List A))
      → get_elem? buffers ch ≡ some waiting
      → get_elem? (set buffers ch (waiting ++ msg ∷ [])) c
        ≡ with_copies (if ch == c then 1 else 0) msg (get_elem? buffers c)
  get_elem?-write msg ch c waiting buffers h = elim (Bool-cases (ch == c)) [
    | inl e ↦
        let same : ch ≡ c = ground arith in
        rw (e, ← same, h)
          (get_elem?-set_self buffers ch (waiting ++ msg ∷ []) (get_elem?-some_lt buffers ch h))
    | inr e ↦ rw e (
        get_elem?-set_ne buffers (waiting ++ msg ∷ []) (λ f. ground arith)
        ∙ sym (with_copies_zero msg (get_elem? buffers c)))
  ]
