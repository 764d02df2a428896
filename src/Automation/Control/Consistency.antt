-- ===== src/Automation/Control/Consistency.antt =====
-- The goroutines of the automations agree with their flags.
use aghast.Base.{
  ℕ, ◌<◌, ◌≡◌, ◌≢◌, sym, ◌∙◌, String, true, false, none, some, ◌==◌, nat_comparable,
  string_comparable, eq_iff, arith, Bool-cases, inl, inr, lookup, lookup-insert, lookup-insert_self,
  insert, get_elem?, lookup_or, List, [], ◌∷◌, refl, eq_refl, some_inj, ◌⊎◌,
}
use mathlib.Core.List.{Memᴰ}
use mathlib.Core.List.Memᴰ
use mathlib.Core.Path.{subst}
use aghast.Runtime.{Value}
use aghast.Mqtt.{Mqtt, subscribe_to_topic}
use aghast.Mqtt.Subscribers.{subs-subscribe}
use aghast.Automation.{AutomationT}
use aghast.Automation.Control.{Worker, waiter, Control, launch, worker_at}

module _ {F : Type 0} where
  -- A goroutine of this automation runs, under its stop channel, and the channel that it reads is
  -- subscribed to its topic.
  abbrev pub IsWaiting : Control F → AutomationT F → Type 0
  IsWaiting s auto =
      (c : ℕ) × (ch : ℕ) × (lookup auto.name s.stop_chans ≡ some c)
      × (worker_at c s.running ≡ some (waiter auto ch))
      × Memᴰ ch (lookup_or [] auto.event_topic s.mq.subs)

  -- Every goroutine of an automation is one of an enabled automation of the list, under its stop
  -- channel.
  abbrev pub IsAccounted : List (AutomationT F) → Control F → Type 0
  IsAccounted autos s =
      (c : ℕ) (auto : AutomationT F) (ch : ℕ)
      → worker_at c s.running ≡ some (waiter auto ch)
      → (lookup auto.name s.stop_chans ≡ some c)
        × ((ix : ℕ) × (get_elem? autos ix ≡ some auto))
        × (auto.enabled ≡ true)

  -- The map of names holds the index of each automation under its name, and nothing else.
  pub record IsIndexed (s : Control F) : Type 0 where
    pub indexed :
        (ix : ℕ) (auto : AutomationT F)
        → get_elem? s.automations ix ≡ some auto
        → lookup auto.name s.by_name ≡ some ix
    pub named :
        (name : String) (ix : ℕ)
        → lookup name s.by_name ≡ some ix
        → (auto : AutomationT F) × (get_elem? s.automations ix ≡ some auto) × (auto.name ≡ name)

  -- No two names share a stop channel, and none is made twice.
  pub record HasOwnChannels (s : Control F) : Type 0 where
    pub own :
        (name other : String) (c : ℕ)
        → lookup name s.stop_chans ≡ some c
        → lookup other s.stop_chans ≡ some c
        → name ≡ other
    pub made : (name : String) (c : ℕ) → lookup name s.stop_chans ≡ some c → c < s.next_chan

  -- Each enabled automation has a goroutine of its own that is subscribed to its topic, there are no
  -- goroutines of other automations, and a disabled one has no stop channel.
  pub record IsConsistent (s : Control F) : Type 0 where
    pub names : IsIndexed s
    pub channels : HasOwnChannels s
    pub enabled :
        (ix : ℕ) (auto : AutomationT F)
        → get_elem? s.automations ix ≡ some auto
        → auto.enabled ≡ true
        → IsWaiting s auto
    pub disabled :
        (ix : ℕ) (auto : AutomationT F)
        → get_elem? s.automations ix ≡ some auto
        → auto.enabled ≡ false
        → lookup auto.name s.stop_chans ≡ none
    pub accounted : IsAccounted s.automations s

  pub own_inserted :
      (s : Control F) (new name other : String) (c : ℕ)
      → HasOwnChannels s
      → lookup name (insert new s.next_chan s.stop_chans) ≡ some c
      → lookup other (insert new s.next_chan s.stop_chans) ≡ some c
      → name ≡ other
  own_inserted s new name other c w h k = elim (Bool-cases (new == name)) [
    | inl e ↦ elim (Bool-cases (new == other)) [
      | inl f ↦ sym ((eq_iff new name).0 e) ∙ (eq_iff new other).0 f
      | inr f ↦ absurd (
          ground (
            arith,
            w.made other c,
            lookup-insert new name s.next_chan s.stop_chans,
            lookup-insert new other s.next_chan s.stop_chans,
          ))
    ]
    | inr e ↦ elim (Bool-cases (new == other)) [
      | inl f ↦ absurd (
          ground (
            arith,
            w.made name c,
            lookup-insert new name s.next_chan s.stop_chans,
            lookup-insert new other s.next_chan s.stop_chans,
          ))
      | inr f ↦
          w.own name other c (ground (arith, lookup-insert new name s.next_chan s.stop_chans))
            (ground (arith, lookup-insert new other s.next_chan s.stop_chans))
    ]
  ]

  pub launch-HasOwnChannels :
      (auto : AutomationT F) (s : Control F) → HasOwnChannels s → HasOwnChannels (launch auto s)
  unfolding launch
  launch-HasOwnChannels auto s w = record {
    own = λ name other d h k. own_inserted s auto.name name other d w h k;
    made = λ name d h.
        ground (arith, w.made name d, lookup-insert auto.name name s.next_chan s.stop_chans);
  }

  subscribe_heard :
      (topic : String) (mq : Mqtt (Value F))
      → let (m', ch) = subscribe_to_topic topic mq in Memᴰ ch (lookup_or [] topic m'.subs)
  subscribe_heard topic mq =
      let (m', ch) = subscribe_to_topic topic mq in
      subst (Memᴰ ch) (sym (subs-subscribe topic topic mq ∙ rw (eq_refl topic) refl))
        (Memᴰ.append_right (lookup_or [] topic mq.subs) (Memᴰ.head {xs = []} refl))

  pub subscribe_hears :
      (topic other : String) (mq : Mqtt (Value F)) (c : ℕ)
      → Memᴰ c (lookup_or [] other mq.subs)
      → Memᴰ c (lookup_or [] other (subscribe_to_topic topic mq).0.subs)
  subscribe_hears topic other mq c m =
      let (m', ch) = subscribe_to_topic topic mq in
      elim (Bool-cases (topic == other)) [
        | inl e ↦
            let same = (eq_iff topic other).0 e in
            subst (Memᴰ c) (sym (subs-subscribe topic other mq ∙ rw e refl)) (
              Memᴰ.append_left (ch ∷ [])
                (subst (λ x. Memᴰ c (lookup_or [] x mq.subs)) (sym same) m))
        | inr e ↦ subst (Memᴰ c) (sym (subs-subscribe topic other mq ∙ rw e refl)) m
      ]

  pub launch-IsWaiting_self :
      (auto : AutomationT F) (s : Control F) → IsWaiting (launch auto s) auto
  unfolding launch worker_at
  launch-IsWaiting_self auto s = (
    s.next_chan,
    (subscribe_to_topic auto.event_topic s.mq).1,
    lookup-insert_self auto.name s.next_chan s.stop_chans,
    ground arith,
    subscribe_heard auto.event_topic s.mq,
  )

  pub launch-IsWaiting :
      (auto other : AutomationT F) (s : Control F)
      → HasOwnChannels s
      → auto.name ≢ other.name
      → IsWaiting s other
      → IsWaiting (launch auto s) other
  unfolding launch worker_at
  launch-IsWaiting auto other s w ne (d, ch, found, runs, hears) =
      let older = w.made other.name d found in
      (
        d,
        ch,
        ground (
          arith,
          lookup-insert auto.name other.name s.next_chan s.stop_chans,
          eq_iff auto.name other.name,
        ),
        ground arith,
        subscribe_hears auto.event_topic other.event_topic s.mq ch hears,
      )

  -- No goroutine is of an automation with this name.
  abbrev pub IsUnused : String → Control F → Type 0
  IsUnused name s =
      (c : ℕ) (auto : AutomationT F) (ch : ℕ)
      → worker_at c s.running ≡ some (waiter auto ch)
      → name ≢ auto.name

  -- The goroutines after a launch are the new one and the others.
  pub launch-worker_at :
      (auto b : AutomationT F) (s : Control F) (c ch : ℕ)
      → worker_at c (launch auto s).running ≡ some (waiter b ch)
      → ((s.next_chan ≡ c) × (auto ≡ b)) ⊎ (worker_at c s.running ≡ some (waiter b ch))
  unfolding launch worker_at
  launch-worker_at auto b s c ch h = elim (Bool-cases (s.next_chan == c)) [
    | inl e ↦ inl (ground arith, waiter_inj (some_inj (rw e at h)))
    | inr e ↦ inr (rw e at h)
  ]
    where
      waiter_inj :
          {a a' : AutomationT F} {x y : ℕ} → Path (Worker F) (waiter a x) (waiter a' y) → a ≡ a'
      waiter_inj e = cc

  pub launch-IsAccounted :
      (autos : List (AutomationT F)) (auto : AutomationT F) (ix : ℕ) (s : Control F)
      → get_elem? autos ix ≡ some auto
      → auto.enabled ≡ true
      → IsUnused auto.name s
      → IsAccounted autos s
      → IsAccounted autos (launch auto s)
  unfolding launch
  launch-IsAccounted autos auto ix s at on unused w c b ch h =
      elim (launch-worker_at auto b s c ch h) [
        | inl (number, same) ↦
            rw (← same, ← number)
              (lookup-insert_self auto.name s.next_chan s.stop_chans, (ix, at), on)
        | inr older ↦
            let (found, there, enabled) = w c b ch older in
            let ne = unused c b ch older in
            (
              ground (
                arith,
                lookup-insert auto.name b.name s.next_chan s.stop_chans,
                eq_iff auto.name b.name,
              ),
              there,
              enabled,
            )
      ]
