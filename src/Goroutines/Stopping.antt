-- ===== src/Goroutines/Stopping.antt =====
-- Stop returns once.
use aghast.Base.{
  ℕ, zero, suc, ◌<◌, ◌≡◌, refl, ap, ◌∙◌, sym, arith, true, false, [], ◌∷◌, ◌++◌, replicate, done,
  blocked,
}
use mathlib.Core.List.{append_assoc, append-nil}
use aghast.Goroutines.{StopChans, begin_each, stop_each}

begin_each-replicate : (n : ℕ) (chs : StopChans) → begin_each n chs ≡ chs ++ replicate n true
unfolding begin_each
begin_each-replicate zero chs = sym (append-nil chs)
begin_each-replicate (suc n) chs =
    begin_each-replicate n (chs ++ true ∷ []) ∙ append_assoc chs (true ∷ []) (replicate n true)

stop_each-replicate : (n : ℕ) → stop_each (replicate n true) ≡ done (replicate n false)
unfolding stop_each
stop_each-replicate zero = refl
stop_each-replicate (suc n) = rw (stop_each-replicate n) refl

-- When n > 0 goroutines have begun, Stop returns, and none listens any more; Stop again on the same
-- instance waits for ever.
pub stop_each_once :
    (n : ℕ)
    → 0 < n
    → (stop_each (begin_each n []) ≡ done (replicate n false))
      × (stop_each (replicate n false) ≡ blocked)
unfolding stop_each
stop_each_once zero h = absurd (omega arith)
stop_each_once (suc n) h =
    (ap stop_each (begin_each-replicate (suc n) []) ∙ stop_each-replicate (suc n), refl)
