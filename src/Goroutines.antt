-- ===== src/Goroutines.antt =====
-- The stop channels that most integrations keep in the same way: addStopChan, which a goroutine calls
-- when it begins, and the loop of Stop.
pub mod Stopping
mod Tests
use aghast.Base.{
  ℕ, zero, suc, Bool, true, false, List, [], ◌∷◌, ◌++◌, length, Outcome, done, blocked, ◌>>=◌,
}

-- One for each channel: true while its goroutine listens. The channels have no buffer.
abbrev pub StopChans : Type 0
StopChans = List Bool

abbrev pub add_stop_chan : StopChans → StopChans × ℕ
add_stop_chan chs = (chs ++ true ∷ [], length chs)

-- That many goroutines begin.
unfoldable pub begin_each : ℕ → StopChans → StopChans
begin_each zero chs = chs
begin_each (suc n) chs = begin_each n (add_stop_chan chs).0

-- `for _, ch := range stopChans { ch <- true }`: each send waits for its goroutine.
unfoldable pub stop_each : StopChans → Outcome StopChans
stop_each [] = done []
stop_each (false ∷ chs) = blocked
stop_each (true ∷ chs) = do rest ← stop_each chs; done (false ∷ rest)
