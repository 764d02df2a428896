-- ===== src/MqttSender.antt =====
-- integrations/mqttsender/mqttsender.go. Reading and decoding the TOML file is left to the caller of
-- `load_config`.
pub mod Periods
mod Tests
use aghast.Goroutines.{StopChans, begin_each, stop_each}
use aghast.Base.{
  ℕ, zero, suc, ◌+◌, ◌%◌, String, Bool, true, false, Option, none, some, List, [], ◌∷◌,
  if◌then◌else◌, ◌==◌, nat_comparable, string_comparable, Outcome, done, panicked, fatal, ◌>>=◌,
}
use aghast.Base.Int.{ℤ, pos, negsuc, times64}
use aghast.Runtime.{Value, string}
use aghast.Mqtt.{Mqtt, GeneralMsg, send_third_party}

pub record SenderT : Type 0 where
  pub topic : String
  pub payload : String
  pub interval : String
  pub period : ℤ
  pub period_secs : ℤ

-- The switch on the interval.
unfoldable pub with_period : SenderT → Outcome SenderT
with_period s =
    if s.interval == "Seconds"
    then done (record s { period_secs = s.period })
    else if s.interval == "Minutes"
    then done (record s { period_secs = times64 60 s.period })
    else if s.interval == "Hours"
    then done (record s { period_secs = times64 3600 s.period })
    else if s.interval == "Days"
    then done (record s { period_secs = times64 86400 s.period })
    else fatal

unfoldable pub with_periods : List SenderT → Outcome (List SenderT)
unfolding with_period
with_periods [] = done []
with_periods (s ∷ ss) = do first ← with_period s; rest ← with_periods ss; done (first ∷ rest)

-- none: the file cannot be read or decoded.
unfoldable pub load_config : Option (List SenderT) → Outcome (List SenderT)
unfolding with_periods
load_config none = fatal
load_config (some ss) = with_periods ss

-- `tock%s.periodSecs == 0`: the remainder has the sign of tock, and is zero for -p where it is for p.
unfoldable pub is_due : (tock : ℕ) → ℤ → Outcome Bool
is_due tock (pos zero) = panicked
is_due tock (pos (suc n)) = done (tock % suc n == 0)
is_due tock (negsuc n) = done (tock % suc n == 0)

module _ {F : Type 0} where
  abbrev pub message_of : SenderT → GeneralMsg (Value F)
  message_of s = record { topic = s.topic; qos = 0; retained = false; payload = string s.payload }

  -- The loop over the senders, at one tick of the clock.
  unfoldable pub send_due : (tock : ℕ) → List SenderT → Mqtt (Value F) → Outcome (Mqtt (Value F))
  unfolding is_due send_third_party
  send_due tock [] mq = done mq
  send_due tock (s ∷ ss) mq = do
    due ← is_due tock s.period_secs
    sent ← (if due then send_third_party (message_of s) mq else done mq)
    send_due tock ss sent

  -- The goroutine: a number of ticks. Between two of them the connection's own goroutines empty the
  -- channel, and others fill it, which is `between`.
  unfoldable pub run_sender :
      (ticks : ℕ)
      → (tock : ℕ) → List SenderT
      → (between : ℕ → Mqtt (Value F) → Mqtt (Value F)) → Mqtt (Value F)
      → Outcome (Mqtt (Value F))
  unfolding send_due
  run_sender zero tock ss between mq = done mq
  run_sender (suc n) tock ss between mq = do
    sent ← send_due (tock + 1) ss mq
    run_sender n (tock + 1) ss between (between (tock + 1) sent)

-- Start: the goroutine begins.
pub start : StopChans → StopChans
unfolding begin_each
start chs = begin_each 1 chs

pub stop : StopChans → Outcome StopChans
unfolding stop_each
stop chs = stop_each chs
