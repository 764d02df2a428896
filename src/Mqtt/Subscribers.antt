-- ===== src/Mqtt/Subscribers.antt =====
-- Who is subscribed to a topic: what SubscribeToTopic adds, UnsubscribeFromTopic takes away.
use mathlib.Core.List.{Memᴰ, Perm, append-nil, perm_middle, perm-cons}
use mathlib.Core.List.Perm
use aghast.Base.{
  ℕ, zero, suc, ◌≡◌, refl, ◌∙◌, ◌≢◌, inl, inr, String, arith, List, [], ◌∷◌, ◌++◌, if◌then◌else◌,
  ◌==◌, nat_comparable, string_comparable, eq_iff, eq_refl, length, get_elem?, lookup, lookup_or,
  lookup_or-insert, lookup_or-some, lookup_or-none, insert, some, Bool-cases, Option-cases, done,
}
use native.Mathlib.Nat.{zero-add}
use aghast.Mqtt.{unsubscribe, Mqtt, subscribe_to_topic, unsubscribe_from_topic}
use aghast.Mqtt.Chans.{remove_chan-perm, index_from-some, index_from_mem, index_from_absent}

-- The other topics keep their lists when one topic's is written.
pub insert_others :
    (topic : String) (chs : List ℕ) (subs : List (String × List ℕ)) (other : String)
    → topic ≢ other
    → lookup_or [] other (insert topic chs subs) ≡ lookup_or [] other subs
insert_others topic chs subs other ne =
    ground (arith, eq_iff topic other, lookup_or-insert [] topic other chs subs)

pub insert_self :
    (topic : String) (chs : List ℕ) (subs : List (String × List ℕ))
    → lookup_or [] topic (insert topic chs subs) ≡ chs
insert_self topic chs subs = ground (arith, eq_refl topic, lookup_or-insert [] topic topic chs subs)

module _ {P : Type 0} where
  -- After SubscribeToTopic the topic's list ends in the new channel, and the other lists are as
  -- before.
  pub subs-subscribe :
      (topic other : String) (m : Mqtt P)
      → let (m', ch) = subscribe_to_topic topic m in
        lookup_or [] other m'.subs ≡ (
          if topic == other
          then lookup_or [] topic m.subs ++ ch ∷ []
          else lookup_or [] other m.subs)
  unfolding subscribe_to_topic
  subs-subscribe topic other m =
      lookup_or-insert [] topic other (lookup_or [] topic m.subs ++ length m.inbound ∷ []) m.subs

  -- Unsubscribing a subscribed channel returns, takes that channel out of the topic's list once,
  -- keeps the others in it as often as they were, and leaves the other topics alone.
  pub unsubscribe_removes :
      (topic : String) (ch : ℕ) (m : Mqtt P)
      → Memᴰ ch (lookup_or [] topic m.subs)
      → (m' : Mqtt P) × (unsubscribe_from_topic topic ch m ≡ done m')
        × Perm (ch ∷ lookup_or [] topic m'.subs) (lookup_or [] topic m.subs)
        × ((other : String)
            → topic ≢ other
            → lookup_or [] other m'.subs ≡ lookup_or [] other m.subs)
  unfolding unsubscribe_from_topic
  unsubscribe_removes topic ch m mem = elim (Option-cases (lookup topic m.subs)) [
    | inl e ↦ elim (rw (lookup_or-none [] topic m.subs e) at mem) [ ]
    | inr (subs, e) ↦
        let held = lookup_or-some [] subs topic m.subs e in
        let (ix, found) = index_from_mem 0 ch subs (rw held at mem) in
        let (j, same, at) = index_from-some 0 ch subs ix found in
        elim (Bool-cases (length subs == 1)) [
          | inl one ↦ (
            record m { calls = m.calls ++ unsubscribe topic ∷ []; subs = insert topic [] m.subs },
            ground (arith, e, found, one),
            rw (insert_self topic [] m.subs, held) (single subs (ground arith) j at),
            insert_others topic [] m.subs,
          )
          | inr more ↦
              let (rest, removed, p) = remove_chan-perm subs ix ch (rw same (rw zero-add at)) in
              (
                record m { subs = insert topic rest m.subs },
                ground (arith, e, found, more, removed),
                rw (insert_self topic rest m.subs, held) p,
                insert_others topic rest m.subs,
              )
        ]
  ]
    where
      single :
          (subs : List ℕ)
          → length subs ≡ 1
          → (j : ℕ) → get_elem? subs j ≡ some ch
          → Perm (ch ∷ []) subs
      single [] h j at = absurd (omega arith)
      single (x ∷ []) h zero at = let same : ch ≡ x = ground arith in rw same (Perm.refl (x ∷ []))
      single (x ∷ []) h (suc j) at = absurd (cc)
      single (x ∷ y ∷ r) h j at = absurd (omega arith)

  -- Unsubscribing a channel that is not subscribed changes nothing.
  pub unsubscribe_absent :
      (topic : String) (ch : ℕ) (m : Mqtt P)
      → ¬ (Memᴰ ch (lookup_or [] topic m.subs))
      → unsubscribe_from_topic topic ch m ≡ done m
  unfolding unsubscribe_from_topic
  unsubscribe_absent topic ch m absent = elim (Option-cases (lookup topic m.subs)) [
    | inl e ↦ ground (arith, e)
    | inr (subs, e) ↦
        let held = lookup_or-some [] subs topic m.subs e in
        let none_found = index_from_absent 0 ch subs (λ mem. absent (rw held mem)) in
        ground (arith, e, none_found)
  ]

-- A list that with `a` in front is `xs` with `a` behind, is `xs`.
regained : (a : ℕ) (xs ys : List ℕ) → Perm (a ∷ ys) (xs ++ a ∷ []) → Perm ys xs
regained a xs ys p =
    let moved : Perm (a ∷ ys) (a ∷ (xs ++ [])) = Perm.trans p (perm_middle xs []) in
    rw (append-nil xs) at ((perm-cons a).0 moved)

pub mem_last {ℓ} : {A : Type ℓ} (a : A) (xs : List A) → Memᴰ a (xs ++ a ∷ [])
mem_last a [] = Memᴰ.head refl
mem_last a (x ∷ xs) = Memᴰ.tail (mem_last a xs)

module _ {P : Type 0} where
  pub subs-subscribe_self :
      (topic : String) (m : Mqtt P)
      → lookup_or [] topic (subscribe_to_topic topic m).0.subs
        ≡ lookup_or [] topic m.subs ++ (subscribe_to_topic topic m).1 ∷ []
  subs-subscribe_self topic m = subs-subscribe topic topic m ∙ rw (eq_refl topic)

  -- What Unsubscribe leaves, given what it took.
  pub restored :
      (topic : String) (m m' : Mqtt P)
      → let (subscribed, ch) = subscribe_to_topic topic m in
        Perm (ch ∷ lookup_or [] topic m'.subs) (lookup_or [] topic subscribed.subs)
        → ((other : String)
            → topic ≢ other
            → lookup_or [] other m'.subs ≡ lookup_or [] other subscribed.subs)
        → (other : String) → Perm (lookup_or [] other m'.subs) (lookup_or [] other m.subs)
  restored topic m m' fewer kept other = elim (Bool-cases (topic == other)) [
    | inl e ↦ rw (← (eq_iff topic other).0 e) (
        regained (subscribe_to_topic topic m).1 (lookup_or [] topic m.subs)
          (lookup_or [] topic m'.subs) (rw (subs-subscribe_self topic m) at fewer))
    | inr e ↦
        let same : lookup_or [] other m'.subs ≡ lookup_or [] other m.subs =
          kept other (λ f. cc ((eq_iff topic other).1 f)) ∙ subs-subscribe topic other m ∙ rw e in
        rw same (Perm.refl (lookup_or [] other m.subs))
  ]

  -- SubscribeToTopic, then UnsubscribeFromTopic with the channel that it gave: every topic has the
  -- channels that it had, each as often (the topic's own perhaps in another order).
  pub unsubscribe-subscribe :
      (topic : String) (m : Mqtt P)
      → let (subscribed, ch) = subscribe_to_topic topic m in
        (m' : Mqtt P) × (unsubscribe_from_topic topic ch subscribed ≡ done m')
        × ((other : String) → Perm (lookup_or [] other m'.subs) (lookup_or [] other m.subs))
  unsubscribe-subscribe topic m =
      let (subscribed, ch) = subscribe_to_topic topic m in
      let (m', returned, fewer, kept) =
        unsubscribe_removes topic ch subscribed
          (rw (subs-subscribe_self topic m) (mem_last ch (lookup_or [] topic m.subs))) in
      (m', returned, restored topic m m' fewer kept)
