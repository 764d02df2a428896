-- ===== src/Goroutines/Tests.antt =====
-- Three goroutines.
use aghast.Base.{◌≡◌, false, [], arith, replicate, done, blocked}
use aghast.Goroutines.{begin_each, stop_each}
use aghast.Goroutines.Stopping.{stop_each_once}

stop_each_once_instance :
    (stop_each (begin_each 3 []) ≡ done (replicate 3 false))
    × (stop_each (replicate 3 false) ≡ blocked)
stop_each_once_instance = stop_each_once 3 (omega arith)
