-- ===== src/Time/Tickers.antt =====
-- The tickers against their description, field by field.
use aghast.Base.{
  ℕ, ◌≡◌, ◌≢◌, refl, sym, ap, ◌∙◌, true, List, [], ◌∷◌, ◌++◌, if◌then◌else◌, ◌==◌, nat_comparable,
  arith, Bool-cases, inl, inr,
}
use aghast.Runtime.{Value}
use aghast.Mqtt.{AghastMsg}
use aghast.Time.{Clock, Reading, Last, tick_msgs, ticker_msg}

-- A new day is a new hour, and a new hour is a new minute.
pub record IsAhead (now : Reading) (last : Last) : Type 0 where
  pub of_hour : now.hour ≢ last.hour → now.minute ≢ last.minute
  pub of_day : now.day ≢ last.day → now.hour ≢ last.hour

abbrev pub kept : Reading → Last
kept now = record { minute = now.minute; hour = now.hour; day = now.day }

kept_same :
    (now : Reading) (last : Last)
    → now.minute ≡ last.minute
    → now.hour ≡ last.hour
    → now.day ≡ last.day
    → last ≡ kept now
kept_same now last m h d =
    ap (λ x. record last { minute = x }) (sym m)
    ∙ ap (λ x. record last { minute = now.minute; hour = x }) (sym h)
    ∙ ap (λ x. record { minute = now.minute; hour = now.hour; day = x }) (sym d)

module _ {F : Type 0} where
  abbrev pub when_new : ℕ → ℕ → AghastMsg (Value F) → List (AghastMsg (Value F))
  when_new now last msg = if now == last then [] else msg ∷ []

  abbrev pub described : Clock → Reading → Last → List (AghastMsg (Value F))
  described clock now last =
      ticker_msg clock "/time/tickers/seconds" "{\"second\": " now.second
        ∷ when_new now.minute last.minute
            (ticker_msg clock "/time/tickers/minutes" "{\"minute\": " now.minute)
      ++ when_new now.hour last.hour (ticker_msg clock "/time/tickers/hours" "{\"hour\": " now.hour)
      ++ when_new now.day last.day (ticker_msg clock "/time/tickers/days" "{\"day\": " now.day)

  -- At a tick at which a new day is a new hour and a new hour a new minute, the second is published,
  -- and the minute, the hour and the day each exactly when it differs from what was kept, in this
  -- order; the reading is kept.
  pub tick_msgs_lem :
      (clock : Clock) (now : Reading) (last : Last)
      → IsAhead now last
      → tick_msgs clock now last ≡ (described clock now last, kept now)
  unfolding tick_msgs
  tick_msgs_lem clock now last ahead =
      let second : AghastMsg (Value F) =
        ticker_msg clock "/time/tickers/seconds" "{\"second\": " now.second in
      let minute : AghastMsg (Value F) =
        ticker_msg clock "/time/tickers/minutes" "{\"minute\": " now.minute in
      let hour : AghastMsg (Value F) =
        ticker_msg clock "/time/tickers/hours" "{\"hour\": " now.hour in
      elim (Bool-cases (now.minute == last.minute)) [
        | inl e ↦
            let h : (now.hour == last.hour) ≡ true = ground (arith, ahead.of_hour) in
            let d : (now.day == last.day) ≡ true = ground (arith, ahead.of_day) in
            rw (e, h, d)
              (ap (λ l. (second ∷ [], l))
                (kept_same now last (ground arith) (ground arith) (ground arith)))
        | inr e ↦ elim (Bool-cases (now.hour == last.hour)) [
          | inl h ↦
              let d : (now.day == last.day) ≡ true = ground (arith, ahead.of_day) in
              rw (e, h, d)
                (ap (λ l. (second ∷ minute ∷ [], l))
                  (kept_same now (record last { minute = now.minute }) refl (ground arith)
                    (ground arith)))
          | inr h ↦ elim (Bool-cases (now.day == last.day)) [
            | inl d ↦
                rw (e, h, d)
                  (ap (λ l. (second ∷ minute ∷ hour ∷ [], l))
                    (kept_same now (record last { minute = now.minute; hour = now.hour }) refl refl
                      (ground arith)))
            | inr d ↦ rw (e, h, d) refl
          ]
        ]
      ]
