-- ===== src/Time.antt =====
-- integrations/time/time.go.
pub mod Parsing
pub mod Alerts
pub mod Tickers
mod Tests
use aghast.Goroutines.{StopChans, begin_each, stop_each}
use Prim.Native.String
use aghast.Base.{
  ℕ, suc, ◌+◌, String, Bool, true, false, not, ◌⊎◌, inl, inr, map, Option, none, some, List, [],
  ◌∷◌, ◌++◌, if◌then◌else◌, ◌==◌, nat_comparable, string_comparable, Assoc, lookup, lookup_or,
  insert, get_elem?, split, Outcome, done, panicked, fatal, ◌>>=◌,
}
use aghast.Base.Int.{ℤ, pos, ltb_ℤ}
use aghast.Runtime.{Value, string}
use aghast.Mqtt.{Mqtt, AghastMsg, send_publish}

-- A table [[Event]]: `daily` is "Sunrise" or "Sunset", with an offset.
pub record TimeEventT : Type 0 where
  pub name : String
  pub hhmmss : String
  pub daily : String
  pub offset_mins : ℤ

-- What getHhmmssFromString returns: its three numbers and whether the error is nil.
pub record Parsed : Type 0 where
  pub hh : ℤ
  pub mm : ℤ
  pub ss : ℤ
  pub ok : Bool

abbrev pub zero_parsed : Bool → Parsed
zero_parsed ok = record { hh = pos 0; mm = pos 0; ss = pos 0; ok = ok }

-- The packages strconv and sunrise, and the clock of the day on which the file is loaded.
pub record Clock : Type 0 where
  pub atoi : String → Option ℤ  -- none: an error
  pub sunrise_at : ℤ → String  -- the local time of sunrise with an offset in minutes, as hh:mm:ss
  pub sunset_at : ℤ → String
  pub itoa : ℕ → String

module _ (clock : Clock) where
  open clock use {atoi, sunrise_at, sunset_at}

  -- One of the three steps: `t[i]`, Atoi and the bound.
  unfoldable pub part : List String → ℕ → (most : ℕ) → Outcome (ℤ ⊎ Parsed)
  part t i most = elim (get_elem? t i) [
    | none ↦ panicked
    | some piece ↦ elim (atoi piece) [
      | none ↦ done (inr (zero_parsed false))
      | some n ↦ if ltb_ℤ (pos most) n then done (inr (zero_parsed true)) else done (inl n)
    ]
  ]

  unfoldable pub or_return : (ℤ ⊎ Parsed) → (ℤ → Outcome Parsed) → Outcome Parsed
  or_return (inl n) k = k n
  or_return (inr early) k = done early

  -- The seconds are read from t[0].
  unfoldable pub get_hhmmss_from_string : String → Outcome Parsed
  unfolding part or_return
  get_hhmmss_from_string s =
      let t = split b':' s in
      part t 0 23 >>= λ first. or_return first (λ hh. part t 1 59 >>= λ second.
      or_return second (λ mm. part t 0 60 >>= λ third.
      or_return third (λ ss. done (record { hh = hh; mm = mm; ss = ss; ok = true }))))

  -- The time of an event.
  unfoldable pub time_of : TimeEventT → Outcome String
  unfolding get_hhmmss_from_string
  time_of ev =
      if not (ev.hhmmss == "")
      then (get_hhmmss_from_string ev.hhmmss >>= λ parsed.
          if parsed.ok then done ev.hhmmss else fatal)
      else if not (ev.daily == "")
      then (if ev.daily == "Sunrise"
          then done (sunrise_at ev.offset_mins)
          else if ev.daily == "Sunset"
          then done (sunset_at ev.offset_mins)
          else fatal)
      else fatal

  -- The loop over the events. Only the name and the time are kept.
  unfoldable pub add_alerts :
      List TimeEventT → Assoc (List TimeEventT) → Outcome (Assoc (List TimeEventT))
  unfolding time_of
  add_alerts [] by_time = done by_time
  add_alerts (ev ∷ evs) by_time = do
    hhmmss ← time_of ev
    let te : TimeEventT = record {
      name = ev.name;
      hhmmss = hhmmss;
      daily = "";
      offset_mins = pos 0;
    }
    add_alerts evs (insert hhmmss (lookup_or [] hhmmss by_time ++ te ∷ []) by_time)

  -- LoadConfig, from the decoded file; none is the error of PreprocessTOML, which it returns.
  unfoldable pub load_config : Option (List TimeEventT) → Outcome (Option (Assoc (List TimeEventT)))
  unfolding add_alerts
  load_config none = done none
  load_config (some evs) = add_alerts evs [] >>= λ by_time. done (some by_time)

-- The fields of a tick that the tickers look at.
pub record Reading : Type 0 where
  pub second : ℕ
  pub minute : ℕ
  pub hour : ℕ
  pub day : ℕ

-- lastMinute, lastHour and lastDay.
pub record Last : Type 0 where
  pub minute : ℕ
  pub hour : ℕ
  pub day : ℕ

module _ {F : Type 0} where
  abbrev pub event_msg : TimeEventT → AghastMsg (Value F)
  event_msg te = record {
    subtopic = String.◌++◌ "/time/events/" te.name;
    qos = 0;
    retained = false;
    payload = string (String.◌++◌ "{\"event\": \"" (String.◌++◌ te.name "\"}"));
  }

  unfoldable pub publish_all :
      List (AghastMsg (Value F)) → Mqtt (Value F) → Outcome (Mqtt (Value F))
  publish_all [] mq = done mq
  publish_all (msg ∷ msgs) mq = do sent ← send_publish msg mq; publish_all msgs sent

  -- timeEvents, at a tick whose local time is `now`.
  unfoldable pub time_events :
      (now : String) → Assoc (List TimeEventT) → Mqtt (Value F) → Outcome (Mqtt (Value F))
  unfolding publish_all
  time_events now by_time mq = elim (lookup now by_time) [
    | none ↦ done mq
    | some evs ↦ publish_all (map event_msg evs) mq
  ]

  abbrev pub ticker_msg : (clock : Clock) → (subtopic field : String) → ℕ → AghastMsg (Value F)
  ticker_msg clock subtopic field n = record {
    subtopic = subtopic;
    qos = 0;
    retained = false;
    payload = string (String.◌++◌ field (String.◌++◌ (clock.itoa n) "}"));
  }

  -- tickers, at a tick: the messages and what it keeps.
  unfoldable pub tick_msgs : Clock → Reading → Last → List (AghastMsg (Value F)) × Last
  tick_msgs clock now last =
      let second = ticker_msg clock "/time/tickers/seconds" "{\"second\": " now.second in
      let minute = ticker_msg clock "/time/tickers/minutes" "{\"minute\": " now.minute in
      let hour = ticker_msg clock "/time/tickers/hours" "{\"hour\": " now.hour in
      let day = ticker_msg clock "/time/tickers/days" "{\"day\": " now.day in
      if now.minute == last.minute
      then (second ∷ [], last)
      else if now.hour == last.hour
      then (second ∷ minute ∷ [], record last { minute = now.minute })
      else if now.day == last.day
      then (second ∷ minute ∷ hour ∷ [], record last { minute = now.minute; hour = now.hour })
      else (
        second ∷ minute ∷ hour ∷ day ∷ [],
        record { minute = now.minute; hour = now.hour; day = now.day },
      )

  unfoldable pub run_tick :
      Clock → Reading → Last → Mqtt (Value F) → Outcome (Last × Mqtt (Value F))
  unfolding tick_msgs publish_all
  run_tick clock now last mq = do
    let (msgs, last') = tick_msgs clock now last
    sent ← publish_all msgs mq
    done (last', sent)

-- Start: both goroutines begin.
pub start : StopChans → StopChans
unfolding begin_each
start chs = begin_each 2 chs

pub stop : StopChans → Outcome StopChans
unfolding stop_each
stop chs = stop_each chs
