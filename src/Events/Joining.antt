-- ===== src/Events/Joining.antt =====
-- A first subscription: GetSubscriberID, and Subscribe to a name that the number has not yet.
use mathlib.Core.List.{Memᴰ}
use aghast.Base.{
  ℕ, ◌≡◌, refl, inl, inr, String, false, arith, List, [], ◌∷◌, ◌++◌, length, insert, lookup,
  Option-cases, done,
}
use aghast.Events.{State, Subscription, channel, get_subscriber_id, is_subscribed, subscribe}
use aghast.Events.Ids.{get_subscriber_id_claims}
use aghast.Events.Channels.{IsWellFormed, grown}

-- The state after a subscription that is new.
abbrev pub joined : ℕ → String → State → State
joined id name s = record s {
  subscriptions = insert name (grown s id name) s.subscriptions;
  buffers = s.buffers ++ [] ∷ [];
}

pub subscribe-joined :
    (id : ℕ) (name : String) (s : State)
    → is_subscribed id name s ≡ false
    → subscribe id name s ≡ (joined id name s, channel (length s.buffers))
unfolding subscribe
subscribe-joined id name s new = elim (Option-cases (lookup name s.subscriptions)) [
  | inl e ↦ ground (arith, e)
  | inr (subs, e) ↦ ground (arith, e)
]

pub Memᴰ-last : (x : Subscription) (xs : List Subscription) → Memᴰ x (xs ++ x ∷ [])
Memᴰ-last x [] = Memᴰ.head refl
Memᴰ-last x (y ∷ xs) = Memᴰ.tail (Memᴰ-last x xs)

pub claim_keeps :
    (name : String) (s claimed : State) (id : ℕ)
    → get_subscriber_id name s ≡ done (claimed, id)
    → IsWellFormed s
    → IsWellFormed claimed
claim_keeps name s claimed id h w =
    let (free, named, others, subs, bufs) = get_subscriber_id_claims name s claimed id h in
    record { own = λ c. rw subs (w.own c); made = λ c small. rw subs (w.made c (rw bufs at small)) }
