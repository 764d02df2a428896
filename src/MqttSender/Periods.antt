-- ===== src/MqttSender/Periods.antt =====
-- How often a sender sends, and what a period of zero does.
use native.Mathlib.Nat.{
  mod-add-div', mod-lt, add-mul-div_right, add-mul-mod_self_right, mod-eq_of_lt, div-eq_of_lt,
  div_self, mod_self,
}
use aghast.Base.{
  ℕ, zero, suc, ◌+◌, ◌*◌, ◌/◌, ◌%◌, ◌≤◌, ◌<◌, ◌≡◌, refl, sym, ap, ◌∙◌, List, [], ◌∷◌, ◌++◌,
  if◌then◌else◌, ◌==◌, nat_comparable, string_comparable, arith, length, length-append, replicate,
  Bool-cases, inl, inr, done, panicked, fatal, ◌>>=◌, done-injective,
}
use mathlib.Core.Path.{subst}
use mathlib.Core.List.{append_assoc, append-nil}
use aghast.Base.Int.{ℤ, pos, times64}
use aghast.Runtime.{Value}
use aghast.Mqtt.{Mqtt, GeneralMsg, send_third_party, outbound_queue_len}
use aghast.MqttSender.{SenderT, with_period, is_due, message_of, send_due, run_sender}

-- One more tick is one more multiple of the period, or none.
div-suc : (t k : ℕ) → suc t / suc k ≡ t / suc k + (if suc t % suc k == 0 then 1 else 0)
div-suc t k =
    let p = suc k in
    let a = t % p in
    let d = t / p in
    let pos : 0 < p = omega arith in
    let whole : suc a + d * p ≡ suc t = omega (arith, mod-add-div' t p) in
    let quotient : suc t / p ≡ suc a / p + d =
      ap (λ n. n / p) (sym whole) ∙ add-mul-div_right (suc a) d pos in
    let remainder : suc t % p ≡ suc a % p =
      ap (λ n. n % p) (sym whole) ∙ add-mul-mod_self_right (suc a) d p in
    let small : a < p = mod-lt t pos in
    elim (Bool-cases (suc a == p)) [
      | inl e ↦
          let full : suc a ≡ p = ground arith in
          let one = ap (λ n. n / p) full ∙ div_self pos in
          let none_left = ap (λ n. n % p) full ∙ mod_self p in
          rw (quotient, remainder, one, none_left) (omega arith)
      | inr e ↦
          let less : suc a < p = ground arith in
          rw (quotient, remainder, div-eq_of_lt less, mod-eq_of_lt less) (ground arith)
    ]

the_pos : (k : ℕ) → 0 < suc k
the_pos k = omega arith

-- The ticks at which the sender is due, of the `n` after tick `t`.
dues : (n t k : ℕ) → ℕ
dues zero t k = 0
dues (suc n) t k = (if (t + 1) % suc k == 0 then 1 else 0) + dues n (t + 1) k

dues_lem : (n t k : ℕ) → t / suc k + dues n t k ≡ (t + n) / suc k
unfolding dues
dues_lem zero t k = let same : t ≡ t + 0 = omega arith in omega (arith, ap (λ x. x / suc k) same)
dues_lem (suc n) t k =
    let same : t + 1 ≡ suc t = omega arith in
    let shift : t + 1 + n ≡ t + suc n = omega arith in
    let later : (t + 1) / suc k + dues n (t + 1) k ≡ (t + suc n) / suc k =
      dues_lem n (t + 1) k ∙ ap (λ x. x / suc k) shift in
    let step : (t + 1) / suc k ≡ t / suc k + (if (t + 1) % suc k == 0 then 1 else 0) =
      subst (λ x. x / suc k ≡ t / suc k + (if x % suc k == 0 then 1 else 0)) (sym same)
        (div-suc t k) in
    omega (arith, later, step)

-- A switch that returns has returned one of its cases.
secs_of :
    (s : SenderT) {loaded : SenderT} (n : ℤ)
    → done (record s { period_secs = n }) ≡ done loaded
    → n ≡ loaded.period_secs
secs_of s n h = ap SenderT.period_secs (done-injective h)

with_period_zero :
    (s loaded : SenderT)
    → s.period ≡ pos 0
    → with_period s ≡ done loaded
    → loaded.period_secs ≡ pos 0
unfolding with_period
with_period_zero s loaded z h = elim (Bool-cases (s.interval == "Seconds")) [
  | inl e ↦ sym (secs_of s s.period (rw e at h)) ∙ z
  | inr e ↦ elim (Bool-cases (s.interval == "Minutes")) [
    | inl f ↦ sym (secs_of s (times64 60 s.period) (rw (e, f) at h)) ∙ ap (times64 60) z
    | inr f ↦ elim (Bool-cases (s.interval == "Hours")) [
      | inl g ↦ sym (secs_of s (times64 3600 s.period) (rw (e, f, g) at h)) ∙ ap (times64 3600) z
      | inr g ↦ elim (Bool-cases (s.interval == "Days")) [
        | inl d ↦
            sym (secs_of s (times64 86400 s.period) (rw (e, f, g, d) at h)) ∙ ap (times64 86400) z
        | inr d ↦ let never : fatal ≡ done loaded = rw (e, f, g, d) at h in absurd (cc)
      ]
    ]
  ]
]

module _ {F : Type 0} where
  abbrev pub alone : ℕ → Mqtt (Value F) → Mqtt (Value F)
  alone tock mq = mq

  abbrev pub with_copies_of : ℕ → GeneralMsg (Value F) → Mqtt (Value F) → Mqtt (Value F)
  with_copies_of n msg mq = record mq { third_party_chan = mq.third_party_chan ++ replicate n msg }

  with_copies_of_zero :
      (msg : GeneralMsg (Value F)) (mq : Mqtt (Value F)) → mq ≡ with_copies_of 0 msg mq
  with_copies_of_zero msg mq =
      ap (λ c. record mq { third_party_chan = c }) (sym (append-nil mq.third_party_chan))

  with_copies_of-suc :
      (n : ℕ) (msg : GeneralMsg (Value F)) (mq : Mqtt (Value F))
      → with_copies_of n msg (with_copies_of 1 msg mq) ≡ with_copies_of (suc n) msg mq
  with_copies_of-suc n msg mq =
      ap (λ c. record mq { third_party_chan = c })
        (append_assoc mq.third_party_chan (msg ∷ []) (replicate n msg))

  send_one :
      (msg : GeneralMsg (Value F)) (mq : Mqtt (Value F))
      → length mq.third_party_chan < outbound_queue_len
      → send_third_party msg mq ≡ done (with_copies_of 1 msg mq)
  unfolding send_third_party
  send_one msg mq room = ground arith

  run_dues :
      (n t k : ℕ) (s : SenderT) (mq : Mqtt (Value F))
      → s.period_secs ≡ pos (suc k)
      → length mq.third_party_chan + dues n t k ≤ outbound_queue_len
      → run_sender n t (s ∷ []) alone mq ≡ done (with_copies_of (dues n t k) (message_of s) mq)
  unfolding run_sender send_due is_due dues
  run_dues zero t k s mq p room = ap done (with_copies_of_zero (message_of s) mq)
  run_dues (suc n) t k s mq p room =
      let msg = message_of s in
      let rest = λ (c : ℕ). done (with_copies_of c msg mq) in
      elim (Bool-cases ((t + 1) % suc k == 0)) [
        | inr e ↦
            let count : dues (suc n) t k ≡ dues n (t + 1) k = rw (dues, e) (omega arith) in
            let idle : send_due (t + 1) (s ∷ []) mq ≡ done mq = rw (send_due, p, is_due, e) refl in
            ap (λ o. o >>= λ sent. run_sender n (t + 1) (s ∷ []) alone sent) idle
            ∙ run_dues n (t + 1) k s mq p (rw (← count) room)
            ∙ ap rest (sym count)
        | inl e ↦
            let count : dues (suc n) t k ≡ suc (dues n (t + 1) k) = rw (dues, e) (omega arith) in
            let fits : length mq.third_party_chan + suc (dues n (t + 1) k) ≤ outbound_queue_len =
              rw (← count) room in
            let sends : send_due (t + 1) (s ∷ []) mq ≡ done (with_copies_of 1 msg mq) =
              rw (send_due, p, is_due, e) (rw (send_one msg mq (omega arith)) refl) in
            ap (λ o. o >>= λ sent. run_sender n (t + 1) (s ∷ []) alone sent) sends
            ∙ run_dues n (t + 1) k s (with_copies_of 1 msg mq) p
                (omega (arith, length-append mq.third_party_chan (msg ∷ []), fits))
            ∙ ap done (with_copies_of-suc (dues n (t + 1) k) msg mq)
            ∙ ap rest (sym count)
      ]

  -- A sender whose period is p seconds, alone in the file and with room in the channel for what it
  -- sends, sends n / p times in the first n seconds.
  pub run_sender_lem :
      (n k : ℕ) (s : SenderT) (mq : Mqtt (Value F))
      → s.period_secs ≡ pos (suc k)
      → length mq.third_party_chan + n / suc k ≤ outbound_queue_len
      → run_sender n 0 (s ∷ []) alone mq ≡ done (with_copies_of (n / suc k) (message_of s) mq)
  run_sender_lem n k s mq p room =
      let same : 0 + n ≡ n = omega arith in
      let count : dues n 0 k ≡ n / suc k =
        omega (arith, dues_lem n 0 k, ap (λ x. x / suc k) same, div-eq_of_lt (the_pos k)) in
      run_dues n 0 k s mq p (rw count room)
      ∙ ap (λ c. done (with_copies_of c (message_of s) mq)) count

  -- LoadConfig accepts a period of zero, whatever the interval, and the first second ends the
  -- program.
  pub zero_period_panics :
      (s : SenderT) (ss : List SenderT) (between : ℕ → Mqtt (Value F) → Mqtt (Value F))
      (mq : Mqtt (Value F)) (n : ℕ) (loaded : SenderT)
      → s.period ≡ pos 0
      → with_period s ≡ done loaded
      → run_sender (suc n) 0 (loaded ∷ ss) between mq ≡ panicked
  unfolding run_sender send_due is_due
  zero_period_panics s ss between mq n loaded z h =
      rw (send_due, with_period_zero s loaded z h, is_due) refl
