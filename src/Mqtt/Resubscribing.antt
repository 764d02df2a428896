-- ===== src/Mqtt/Resubscribing.antt =====
-- A topic that its last subscriber left, and that gets another.
use aghast.Base.{
  zero, suc, All, ℕ, ◌≡◌, refl, ◌∙◌, ◌≢◌, inl, inr, String, arith, [], ◌∷◌, ◌++◌, nat_comparable,
  string_comparable, eq_iff, eq_refl, length, lookup, lookup-insert_self, insert, none, some,
  List-cases, done,
}
use aghast.Mqtt.{
  Mqtt, subscribe, unsubscribe, fan, subscribe_to_topic, unsubscribe_from_topic, run_fan_out,
}
use aghast.Mqtt.Listening.{
  handler_of, handler_from-append, subscribe_known, fresh_channel, unsubscribe_last,
  handler_of-unsubscribe,
}

module _ {P : Type 0} where
  -- The first n of the goroutines fanOut that wait have run.
  abbrev pub after_fan_outs : ℕ → Mqtt P → Mqtt P
  after_fan_outs zero m = m
  after_fan_outs (suc n) m = after_fan_outs n (run_fan_out m)

  run_fan_out_deaf :
      (topic : String) (m : Mqtt P)
      → handler_of topic m ≡ none
      → All (λ t. t ≢ topic) m.fan_outs
      → (handler_of topic (run_fan_out m) ≡ none) × All (λ t. t ≢ topic) (run_fan_out m).fan_outs
  unfolding run_fan_out
  run_fan_out_deaf topic m deaf others = elim (List-cases m.fan_outs) [
    | inl e ↦ rw (run_fan_out, e) (deaf, others)
    | inr (t, rest, e) ↦
        let (ne, later) = rw e at others in
        rw (run_fan_out, e)
          (
            handler_from-append topic none m.calls (subscribe t (fan t))
                ∙ ground (arith, eq_iff t topic, ne),
            later,
          )
  ]

  after_fan_outs_deaf :
      (topic : String) (n : ℕ) (m : Mqtt P)
      → handler_of topic m ≡ none
      → All (λ t. t ≢ topic) m.fan_outs
      → handler_of topic (after_fan_outs n m) ≡ none
  after_fan_outs_deaf topic zero m deaf others = deaf
  after_fan_outs_deaf topic (suc n) m deaf others =
      let (still, rest) = run_fan_out_deaf topic m deaf others in
      after_fan_outs_deaf topic n (run_fan_out m) still rest

  -- When the last subscriber of a topic unsubscribes and another then subscribes, and no goroutine
  -- fanOut of the topic is still to run, the topic has its channel again, but the client has no
  -- callback for it, however many of the waiting goroutines fanOut run after that.
  pub resubscribe_deaf :
      (topic : String) (ch : ℕ) (m : Mqtt P)
      → lookup topic m.subs ≡ some (ch ∷ [])
      → All (λ t. t ≢ topic) m.fan_outs
      → (m' : Mqtt P) × (unsubscribe_from_topic topic ch m ≡ done m')
        × (let (again, fresh) = subscribe_to_topic topic m' in
            (lookup topic again.subs ≡ some (fresh ∷ []))
            × ((n : ℕ) → handler_of topic (after_fan_outs n again) ≡ none))
  resubscribe_deaf topic ch m e others =
      let emptied = insert topic [] m.subs in
      let m' : Mqtt P = record m { calls = m.calls ++ unsubscribe topic ∷ []; subs = emptied } in
      let known : lookup topic emptied ≡ some [] = lookup-insert_self topic [] m.subs in
      let deaf : handler_of topic m' ≡ none =
        handler_of-unsubscribe topic topic m emptied ∙ rw (eq_refl topic) refl in
      (
        m',
        unsubscribe_last topic ch m e,
        rw (subscribe_known topic m' [] known, fresh_channel topic m')
            (
              lookup-insert_self topic (length m.inbound ∷ []) emptied,
              λ n. after_fan_outs_deaf topic n _ deaf others,
            ),
      )
