-- ===== src/Datalogger/Flushing.antt =====
-- When the rows reach the file.
use mathlib.Core.Path.{subst}
use native.Mathlib.Nat.{add-mul-div_right, add-mul-mod_self_right, div-eq_of_lt, mod-eq_of_lt}
use aghast.Base.{
  ℕ, suc, ◌+◌, ◌*◌, ◌/◌, ◌%◌, ◌^◌, ◌<◌, ◌≡◌, refl, ◌∙◌, ap, arith, String, Bool, true, false, some,
  List, [], ◌∷◌, ◌++◌, inl, inr, Bool-cases, length, length-append, All, sym, done,
}
use aghast.Base.Int.{ℤ, pos, negsuc, plus_one, eqb_ℤ, ltb_ℤ}
use aghast.Runtime.{Value}
use aghast.Mqtt.{GeneralMsg}
use aghast.Loggers.{Floats}
use aghast.Datalogger.{LoggerT, Log, written, flush_if, write, row_of, log_message, log_messages}

-- With a flush every n rows, k of the rows are not flushed yet, after q flushes.
record IsFlushing (n : ℕ) (log : Log) (k q : ℕ) : Type 0 where
  counted : log.unflushed ≡ pos k
  below : k < n
  split : log.flushed + k ≡ length log.rows
  whole : log.flushed ≡ q * n

write_counted :
    (flush_every : ℤ) (row : List String) (log : Log) (z : ℤ)
    → plus_one log.unflushed ≡ z
    → write flush_every row log ≡ flush_if (eqb_ℤ z flush_every) (written row z log)
unfolding write
write_counted flush_every row log z e =
    ap (λ u. flush_if (eqb_ℤ u flush_every) (written row u log)) e

flush_if-IsFlushing :
    (n k q : ℕ) (row : List String) (log : Log) (due : Bool)
    → (eqb_ℤ (pos (k + 1)) (pos n)) ≡ due
    → IsFlushing n log k q
    → (k' : ℕ) × (q' : ℕ) × IsFlushing n (flush_if due (written row (pos (k + 1)) log)) k' q'
flush_if-IsFlushing n k q row log true e inv =
    let reached : k + 1 ≡ n = ground arith in
    let longer = length-append log.rows (row ∷ []) in
    let all : length (log.rows ++ row ∷ []) ≡ (q + 1) * n = grind (arith, inv.split, inv.whole) in
    (0, q + 1, record { counted = refl; below = omega arith; split = omega arith; whole = all })
flush_if-IsFlushing n k q row log false e inv =
    let longer = length-append log.rows (row ∷ []) in
    let split : log.flushed + (k + 1) ≡ length (log.rows ++ row ∷ []) =
      omega (arith, longer, inv.split) in
    (k + 1, q, record { counted = refl; below = ground arith; split = split; whole = inv.whole })

write-IsFlushing :
    (n k q : ℕ) (row : List String) (log : Log)
    → n < 2 ^ 63
    → IsFlushing n log k q
    → (k' : ℕ) × (q' : ℕ) × IsFlushing n (write (pos n) row log) k' q'
write-IsFlushing n k q row log small inv =
    let less = inv.below in
    let next : plus_one log.unflushed ≡ pos (k + 1) = ap plus_one inv.counted ∙ ground arith in
    rw (write_counted (pos n) row log (pos (k + 1)) next)
      (flush_if-IsFlushing n k q row log (eqb_ℤ (pos (k + 1)) (pos n)) refl inv)

-- Nothing has been flushed, and the rows are counted.
record IsHeld (log : Log) : Type 0 where
  counted : log.unflushed ≡ pos (length log.rows)
  held : log.flushed ≡ 0

not_due : (k : ℕ) (z : ℤ) → 0 < k → ltb_ℤ (pos 0) z ≡ false → eqb_ℤ (pos k) z ≡ false
not_due k (pos n) h never = ground arith
not_due k (negsuc n) h never = ground arith

write-IsHeld :
    (flush_every : ℤ) (row : List String) (log : Log)
    → ltb_ℤ (pos 0) flush_every ≡ false
    → suc (length log.rows) < 2 ^ 63
    → IsHeld log
    → IsHeld (write flush_every row log)
write-IsHeld flush_every row log never small inv =
    let longer = length-append log.rows (row ∷ []) in
    let next : plus_one log.unflushed ≡ pos (length (log.rows ++ row ∷ [])) =
      ap plus_one inv.counted ∙ ground (arith, longer) in
    let k = length (log.rows ++ row ∷ []) in
    let kept : IsHeld (written row (pos k) log) = record { counted = refl; held = inv.held } in
    let later : eqb_ℤ (pos k) flush_every ≡ false =
      not_due k flush_every (omega (arith, longer)) never in
    rw (write_counted flush_every row log (pos k) next)
      (subst (λ b. IsHeld (flush_if b (written row (pos k) log))) (sym later) kept)

length-write :
    (flush_every : ℤ) (row : List String) (log : Log)
    → length (write flush_every row log).rows ≡ suc (length log.rows)
length-write flush_every row log =
    rw (write_counted flush_every row log (plus_one log.unflushed) refl)
      (elim (Bool-cases (eqb_ℤ (plus_one log.unflushed) flush_every)) [
        | inl e ↦ rw e (length-append log.rows (row ∷ []) ∙ omega arith)
        | inr e ↦ rw e (length-append log.rows (row ∷ []) ∙ omega arith)
      ])

abbrev pub empty : Log
empty = record { rows = []; flushed = 0; unflushed = pos 0 }

div_mod_unique : (n q k m : ℕ) → k < n → m ≡ q * n + k → (q ≡ m / n) × (k ≡ m % n)
div_mod_unique n q k m below e =
    let swapped : m ≡ k + q * n = omega (arith, e) in
    (
      rw (swapped, add-mul-div_right k q {z = n} (omega arith), div-eq_of_lt below) (omega arith),
      rw (swapped, add-mul-mod_self_right k q n, mod-eq_of_lt below) refl,
    )

module _ {F : Type 0} (floats : Floats F) (l : LoggerT) where
  -- A message that has the field that is logged, if the logger has a key.
  abbrev pub IsReadable : String × String × GeneralMsg (Value F) → Type 0
  IsReadable (ts, compound, ev) =
      (row : List String) × (row_of floats ts compound l ev ≡ done (some row))

  -- An invariant of the log that every write keeps, while fewer than `most` rows are in it.
  log_messages_keeps :
      (most : ℕ) (P : Log → Type 0)
      → ((row : List String) (log : Log)
          → suc (length log.rows) < most
          → P log
          → P (write l.flush_every row log))
      → (evs : List (String × String × GeneralMsg (Value F))) (log : Log) → All IsReadable evs
      → length log.rows + length evs < most
      → P log
      → (log' : Log) × (log_messages floats l evs log ≡ done (some log'))
        × P log'
        × (length log'.rows ≡ length log.rows + length evs)
  unfolding log_messages log_message
  log_messages_keeps most P keep [] log readable fits h = (log, refl, h, omega arith)
  log_messages_keeps most P keep ((ts, compound, ev) ∷ evs) log ((row, e), readable) fits h =
      let longer = length-write l.flush_every row log in
      let (log', returned, kept, grown) =
        log_messages_keeps most P keep evs (write l.flush_every row log) readable
          (omega (arith, longer)) (keep row log (omega arith) h) in
      (log', rw e returned, kept, omega (arith, grown, longer))

  -- A logger with FlushEvery = n > 0 (an int), on messages that all have the field that it logs, goes
  -- on: it has written one row for each, flushed the first of them up to the largest multiple of n, and
  -- counts the others, fewer than n.
  pub log_messages_flushes :
      (n : ℕ) (evs : List (String × String × GeneralMsg (Value F)))
      → l.flush_every ≡ pos n
      → 0 < n
      → n < 2 ^ 63
      → All IsReadable evs
      → (log : Log) × (log_messages floats l evs empty ≡ done (some log))
        × (length log.rows ≡ length evs)
        × (log.flushed ≡ length evs / n * n)
        × (log.unflushed ≡ pos (length evs % n))
        × (length evs % n < n)
  log_messages_flushes n evs every some_n small readable =
      let (log, returned, (k, q, inv), grown) =
        log_messages_keeps (suc (length evs)) (λ log. (k : ℕ) × (q : ℕ) × IsFlushing n log k q)
          (λ row log less (k, q, inv). rw every (write-IsFlushing n k q row log small inv)) evs
          empty readable (omega arith)
          (
            0,
            0,
            record { counted = refl; below = some_n; split = omega arith; whole = omega arith },
          ) in
      let parts : length evs ≡ q * n + k = omega (arith, inv.split, inv.whole, grown) in
      let (quotient, rest) = div_mod_unique n q k (length evs) inv.below parts in
      (
        log,
        returned,
        omega (arith, grown),
        inv.whole ∙ ap (λ x. x * n) quotient,
        inv.counted ∙ ap pos rest,
        rw (← rest) inv.below,
      )

  -- A logger whose FlushEvery is zero or negative, on fewer than 2^63 messages that all have the
  -- field that it logs: it has written one row for each and flushed none.
  pub log_messages_never :
      (evs : List (String × String × GeneralMsg (Value F)))
      → ltb_ℤ (pos 0) l.flush_every ≡ false
      → All IsReadable evs
      → length evs < 2 ^ 63
      → (log : Log) × (log_messages floats l evs empty ≡ done (some log))
        × (length log.rows ≡ length evs)
        × (log.flushed ≡ 0)
  log_messages_never evs never readable fits =
      let (log, returned, inv, grown) =
        log_messages_keeps (2 ^ 63) IsHeld
          (λ row log small h. write-IsHeld l.flush_every row log never small h) evs empty readable
          (omega arith) (record { counted = refl; held = refl }) in
      (log, returned, omega (arith, grown), inv.held)
