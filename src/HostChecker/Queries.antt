-- ===== src/HostChecker/Queries.antt =====
-- The channel of the queries.
use aghast.Base.{
  ◌+◌, ◌≡◌, ap, arith, [], ◌∷◌, ◌++◌, lookup_or, length, replicate, false, done, ◌>>=◌,
}
use aghast.Mqtt.{Mqtt, subscribe_to_topic}
use aghast.Mqtt.Subscribers.{subs-subscribe_self}
use aghast.Goroutines.Stopping.{stop_each_once}
use aghast.HostChecker.{Checkers, start, stop}

-- A host checker that is started and stopped leaves its channel subscribed to the queries, though no
-- goroutine takes messages from it any more.
pub stop_keeps_channel :
    {P : Type 0} (h : Checkers) (mq : Mqtt P)
    → let (chs, started, ch) = start h ([], mq) in
      (left : Mqtt P) × (stop (chs, started) ≡ done (replicate (length h.checker + 1) false, left))
      × (lookup_or [] "aghast/hostchecker/get/+" left.subs
          ≡ lookup_or [] "aghast/hostchecker/get/+" mq.subs ++ ch ∷ [])
unfolding start stop
stop_keeps_channel h mq =
    let started = (subscribe_to_topic "aghast/hostchecker/get/+" mq).0 in
    (
      started,
      ap (λ o. o >>= λ stopped. done (stopped, started))
          (stop_each_once (length h.checker + 1) (omega arith)).0,
      subs-subscribe_self "aghast/hostchecker/get/+" mq,
    )
