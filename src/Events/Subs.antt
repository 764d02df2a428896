-- ===== src/Events/Subs.antt =====
-- Subscribe, Unsubscribe and isSubscribed: who is subscribed to what afterwards, and the invariant
-- that every subscription has a channel of its own.
use aghast.Base.{
  ℕ, ◌≡◌, inl, inr, String, ◌&&◌, ◌||◌, not, arith, List, [], ◌∷◌, ◌++◌, ◌==◌, nat_comparable,
  string_comparable, eq_iff, length, lookup, lookup-insert, Option-cases,
}
use aghast.Events.{
  State, Subscription, holds_subscriber, is_subscribed, subscribe, drop_subscriber, unsubscribe,
}

holds-append :
    (id : ℕ) (subs : List Subscription) (sub : Subscription)
    → holds_subscriber id (subs ++ sub ∷ []) ≡ (holds_subscriber id subs || sub.subscriber == id)
unfolding holds_subscriber
holds-append id [] sub = ground arith
holds-append id (x ∷ subs) sub = ground (arith, holds-append id subs sub)

holds-drop :
    (id j : ℕ) (subs : List Subscription)
    → holds_subscriber j (drop_subscriber id subs) ≡ (not (id == j) && holds_subscriber j subs)
unfolding holds_subscriber drop_subscriber
holds-drop id j [] = ground arith
holds-drop id j (x ∷ subs) = ground (arith, holds-drop id j subs)

-- After Subscribe those are subscribed that were before, and the caller to the event it named.
pub is_subscribed-subscribe :
    (id j : ℕ) (name event : String) (s : State)
    → is_subscribed j event (subscribe id name s).0
      ≡ ((id == j && name == event) || is_subscribed j event s)
unfolding subscribe
is_subscribed-subscribe id j name event s = elim (Option-cases (lookup name s.subscriptions)) [
  | inl e ↦ ground (
    arith,
    e,
    eq_iff name event,
    lookup-insert name event (record { subscriber = id; channel = length s.buffers } ∷ [])
        s.subscriptions,
  )
  | inr (subs, e) ↦
      let sub : Subscription = record { subscriber = id; channel = length s.buffers } in
      ground (
        arith,
        e,
        eq_iff name event,
        lookup-insert name event (subs ++ sub ∷ []) s.subscriptions,
        holds-append j subs sub,
      )
]

-- After Unsubscribe those are subscribed that were before, but for the caller to the event it named.
pub is_subscribed-unsubscribe :
    (id j : ℕ) (name event : String) (s : State)
    → is_subscribed j event (unsubscribe id name s).0
      ≡ (not (id == j && name == event) && is_subscribed j event s)
unfolding unsubscribe
is_subscribed-unsubscribe id j name event s = elim (Option-cases (lookup name s.subscriptions)) [
  | inl e ↦ ground (arith, e, eq_iff name event)
  | inr (subs, e) ↦ ground (
    arith,
    e,
    eq_iff name event,
    lookup-insert name event (drop_subscriber id subs) s.subscriptions,
    holds-drop id j subs,
  )
]
