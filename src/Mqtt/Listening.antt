-- ===== src/Mqtt/Listening.antt =====
-- Whether the broker still sends a topic's messages: the callback that stands for a topic after
-- the calls made so far, and when a topic with subscribers is left without one.
use aghast.Base.{
  ℕ, ◌≡◌, refl, sym, ap, ◌∙◌, ◌≢◌, ◌⊎◌, inl, inr, String, arith, List, [], ◌∷◌, ◌++◌, if◌then◌else◌,
  ◌==◌, nat_comparable, string_comparable, eq_iff, eq_refl, length, Assoc, lookup, lookup_or,
  lookup-insert, insert, Option, none, some, Bool-cases, Option-cases, List-cases, done,
  >>=-eq-done, done-injective,
}
use aghast.Mqtt.{
  Mqtt, Call, Handler, connect, disconnect, subscribe, unsubscribe, publish, direct, fan,
  remove_chan, index_from, subscribe_to_topic, unsubscribe_from_topic, run_fan_out,
}

module _ {P : Type 0} where
  -- A client keeps one callback for each topic: Subscribe replaces it and Unsubscribe drops it.
  abbrev pub handler_step : String → Option Handler → Call P → Option Handler
  handler_step topic h (connect o) = h
  handler_step topic h (disconnect n) = h
  handler_step topic h (subscribe t handler) = if t == topic then some handler else h
  handler_step topic h (unsubscribe t) = if t == topic then none else h
  handler_step topic h (publish t q r p) = h

  abbrev pub handler_from : String → Option Handler → List (Call P) → Option Handler
  handler_from topic h [] = h
  handler_from topic h (c ∷ cs) = handler_from topic (handler_step topic h c) cs

  abbrev pub handler_of : String → Mqtt P → Option Handler
  handler_of topic m = handler_from topic none m.calls

  pub handler_from-append :
      (topic : String) (h : Option Handler) (cs : List (Call P)) (c : Call P)
      → handler_from topic h (cs ++ c ∷ []) ≡ handler_step topic (handler_from topic h cs) c
  handler_from-append topic h [] c = refl
  handler_from-append topic h (d ∷ cs) c = handler_from-append topic (handler_step topic h d) cs c

  -- Every topic that has a subscriber has a callback.
  unfoldable pub IsListening : Mqtt P → Type 0
  IsListening m =
      (topic : String) (ch : ℕ) (chs : List ℕ)
      → lookup topic m.subs ≡ some (ch ∷ chs)
      → handler_of topic m ≢ none

  pub subscribe_known :
      (topic : String) (m : Mqtt P) (chs : List ℕ)
      → lookup topic m.subs ≡ some chs
      → (subscribe_to_topic topic m).0 ≡ record m {
        subs = insert topic (chs ++ length m.inbound ∷ []) m.subs;
        inbound = m.inbound ++ [] ∷ [];
      }
  unfolding subscribe_to_topic lookup_or
  subscribe_known topic m chs e = ground (arith, e)

  subscribe_new :
      (topic : String) (m : Mqtt P)
      → lookup topic m.subs ≡ none
      → (subscribe_to_topic topic m).0 ≡ record m {
        subs = insert topic (length m.inbound ∷ []) m.subs;
        inbound = m.inbound ++ [] ∷ [];
        calls = m.calls ++ subscribe topic (direct (length m.inbound)) ∷ [];
        fan_outs = m.fan_outs ++ topic ∷ [];
      }
  unfolding subscribe_to_topic lookup_or
  subscribe_new topic m e = ground (arith, e)

  pub fresh_channel :
      (topic : String) (m : Mqtt P) → (subscribe_to_topic topic m).1 ≡ length m.inbound
  unfolding subscribe_to_topic
  fresh_channel topic m = refl

  -- Writing a topic's list keeps the property, where the topic has a callback.
  insert-IsListening :
      (topic : String) (chs : List ℕ) (m m' : Mqtt P)
      → IsListening m
      → m'.subs ≡ insert topic chs m.subs
      → ((t : String) → topic ≢ t → handler_of t m' ≡ handler_of t m)
      → (chs ≢ [] → handler_of topic m' ≢ none)
      → IsListening m'
  unfolding IsListening
  insert-IsListening topic chs m m' listening written others here t c cs at =
      elim (Bool-cases (topic == t)) [
        | inl e ↦
            let new : lookup t m'.subs ≡ some chs =
              ap (lookup t) written ∙ lookup-insert topic t chs m.subs ∙ rw e in
            rw (← (eq_iff topic t).0 e) (here (λ f. ground arith))
        | inr e ↦
            let other : topic ≢ t = λ f. cc ((eq_iff topic t).1 f) in
            let old : lookup t m.subs ≡ some (c ∷ cs) =
              sym (ap (lookup t) written ∙ lookup-insert topic t chs m.subs ∙ rw e) ∙ at in
            rw (others t other) (listening t c cs old)
      ]

  -- SubscribeToTopic keeps it that every topic with a subscriber has a callback, unless the topic
  -- stands in the map with an empty list, as one that lost all its subscribers does.
  pub subscribe-IsListening :
      (topic : String) (m : Mqtt P)
      → lookup topic m.subs ≢ some []
      → IsListening m
      → IsListening (subscribe_to_topic topic m).0
  subscribe-IsListening topic m used listening = elim (Option-cases (lookup topic m.subs)) [
    | inl e ↦
        let call = subscribe topic (direct (length m.inbound)) in
        rw (subscribe_new topic m e) (
          insert-IsListening topic (length m.inbound ∷ []) m _ listening refl
            (λ t ne. handler_from-append t none m.calls call ∙ ground (arith, eq_iff topic t))
            (λ _. rw (handler_from-append topic none m.calls call) (rw (eq_refl topic) (λ f. cc))))
    | inr ([], e) ↦ absurd (used e)
    | inr (c ∷ cs, e) ↦ rw (subscribe_known topic m (c ∷ cs) e) (
        insert-IsListening topic ((c ∷ cs) ++ length m.inbound ∷ []) m _ listening refl
          (λ t ne. refl) (λ _. unfold IsListening in listening topic c cs e))
  ]

  pub unsubscribe_last :
      (topic : String) (ch : ℕ) (m : Mqtt P)
      → lookup topic m.subs ≡ some (ch ∷ [])
      → unsubscribe_from_topic topic ch m
        ≡ done
            (record m { calls = m.calls ++ unsubscribe topic ∷ []; subs = insert topic [] m.subs })
  unfolding unsubscribe_from_topic
  unsubscribe_last topic ch m e = ground (arith, e)

  pub handler_of-unsubscribe :
      (topic t : String) (m : Mqtt P) (subs : Assoc (List ℕ))
      → handler_of t (record m { calls = m.calls ++ unsubscribe topic ∷ []; subs = subs })
        ≡ (if topic == t then none else handler_of t m)
  handler_of-unsubscribe topic t m subs = handler_from-append t none m.calls (unsubscribe topic)

  unsubscribe_rest :
      (topic : String) (ch : ℕ) (m m' : Mqtt P) (c : ℕ) (cs : List ℕ)
      → lookup topic m.subs ≡ some (c ∷ cs)
      → unsubscribe_from_topic topic ch m ≡ done m'
      → (m' ≡ m)
        ⊎ ((chs : List ℕ) × (m'.subs ≡ insert topic chs m.subs)
            × ((m'.calls ≡ m.calls)
                ⊎ ((chs ≡ []) × (m'.calls ≡ m.calls ++ unsubscribe topic ∷ []))))
  unfolding unsubscribe_from_topic
  unsubscribe_rest topic ch m m' c cs e h = elim (Option-cases (index_from 0 ch (c ∷ cs))) [
    | inl absent ↦ inl (ground (arith, e, absent))
    | inr (ix, found) ↦ elim (Bool-cases (length (c ∷ cs) == 1)) [
      | inl one ↦ inr ([], ground (arith, e, found, one), inr (refl, ground (arith, e, found, one)))
      | inr more ↦
          let (rest, removed, last) =
            >>=-eq-done (remove_chan (c ∷ cs) ix)
              (λ rest. done (record m { subs = insert topic rest m.subs }))
              (rw (e, found, more, unsubscribe_from_topic) at h) in
          let same = done-injective last in
          inr (
            rest,
            ap (λ (r : Mqtt P). r.subs) (sym same),
            inl (ap (λ (r : Mqtt P). r.calls) (sym same)),
          )
    ]
  ]

  unsubscribe_nobody :
      (topic : String) (ch : ℕ) (m : Mqtt P)
      → (lookup topic m.subs ≡ none) ⊎ (lookup topic m.subs ≡ some [])
      → unsubscribe_from_topic topic ch m ≡ done m
  unfolding unsubscribe_from_topic
  unsubscribe_nobody topic ch m (inl e) = ground (arith, e)
  unsubscribe_nobody topic ch m (inr e) = ground (arith, e)

  run_fan_out_cases :
      (m : Mqtt P)
      → (run_fan_out m ≡ m)
        ⊎ ((topic : String) × (rest : List String) × (run_fan_out m
              ≡ record m { calls = m.calls ++ subscribe topic (fan topic) ∷ []; fan_outs = rest }))
  unfolding run_fan_out
  run_fan_out_cases m = elim (List-cases m.fan_outs) [
    | inl e ↦ inl (ground (arith, e))
    | inr (topic, rest, e) ↦ inr (topic, rest, ground (arith, e))
  ]

  -- UnsubscribeFromTopic, when it returns, keeps it that every topic with a subscriber has a callback.
  pub unsubscribe-IsListening :
      (topic : String) (ch : ℕ) (m m' : Mqtt P)
      → IsListening m
      → unsubscribe_from_topic topic ch m ≡ done m'
      → IsListening m'
  unsubscribe-IsListening topic ch m m' listening h = elim (Option-cases (lookup topic m.subs)) [
    | inl e ↦ rw (← unchanged (unsubscribe_nobody topic ch m (inl e))) listening
    | inr ([], e) ↦ rw (← unchanged (unsubscribe_nobody topic ch m (inr e))) listening
    | inr (c ∷ cs, e) ↦ elim (unsubscribe_rest topic ch m m' c cs e h) [
      | inl same ↦ rw same listening
      | inr (chs, written, inl calls) ↦
          insert-IsListening topic chs m m' listening written
            (λ t ne. ap (handler_from t none) calls)
            (λ _.
              rw (ap (handler_from topic none) calls)
                (unfold IsListening in listening topic c cs e))
      | inr (chs, written, inr (emptied, calls)) ↦
          insert-IsListening topic chs m m' listening written
            (λ t ne.
              ap (handler_from t none) calls
              ∙ handler_from-append t none m.calls (unsubscribe topic)
              ∙ ground (arith, eq_iff topic t))
            (λ some_left. absurd (some_left emptied))
    ]
  ]
    where
      unchanged : unsubscribe_from_topic topic ch m ≡ done m → m ≡ m'
      unchanged same = done-injective (sym same ∙ h)

  -- So does fanOut.
  pub run_fan_out-IsListening : (m : Mqtt P) → IsListening m → IsListening (run_fan_out m)
  unfolding IsListening
  run_fan_out-IsListening m listening = elim (run_fan_out_cases m) [
    | inl same ↦ rw same listening
    | inr (topic, rest, same) ↦ rw same (λ t c cs at.
        rw (handler_from-append t none m.calls (subscribe topic (fan topic)))
          (elim (Bool-cases (topic == t)) [
            | inl e ↦ rw e (λ f. cc)
            | inr e ↦ rw e (listening t c cs at)
          ]))
  ]
