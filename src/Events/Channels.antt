-- ===== src/Events/Channels.antt =====
-- Every subscription has a channel of its own: how often a channel occurs in the map of
-- subscriptions, and the invariant that Subscribe and Unsubscribe keep.
use mathlib.Core.List.{Memᴰ}
use aghast.Base.{
  ℕ, ◌+◌, ◌≤◌, ◌<◌, ◌≡◌, ◌≢◌, ◌⊎◌, inl, inr, String, arith, List, [], ◌∷◌, ◌++◌, ◌==◌,
  nat_comparable, string_comparable, eq_iff, length, length-append, Assoc, lookup, insert,
  if◌then◌else◌, none, some, Bool-cases, Option-cases,
}
use aghast.Events.{State, Subscription, is_subscribed, subscribe, drop_subscriber, unsubscribe}

-- How many subscriptions of a list, and of the map, send to the channel.
abbrev pub uses : ℕ → List Subscription → ℕ
uses c [] = 0
uses c (sub ∷ subs) = (if sub.channel == c then 1 else 0) + uses c subs

abbrev pub total_uses : ℕ → Assoc (List Subscription) → ℕ
total_uses c [] = 0
total_uses c ((key, subs) ∷ m) = uses c subs + total_uses c m

abbrev pub found : String → Assoc (List Subscription) → List Subscription
found key m = elim (lookup key m) [ none ↦ [] | some subs ↦ subs ]

pub record IsWellFormed (s : State) : Type 0 where
  pub own : (c : ℕ) → total_uses c s.subscriptions ≤ 1
  pub made : (c : ℕ) → length s.buffers ≤ c → total_uses c s.subscriptions ≡ 0

pub uses-append : (c : ℕ) (xs ys : List Subscription) → uses c (xs ++ ys) ≡ uses c xs + uses c ys
uses-append c [] ys = omega arith
uses-append c (x ∷ xs) ys = omega (arith, uses-append c xs ys)

-- Writing a key replaces what was found under it.
total_uses-insert :
    (c : ℕ) (key : String) (subs : List Subscription) (m : Assoc (List Subscription))
    → total_uses c (insert key subs m) + uses c (found key m) ≡ total_uses c m + uses c subs
unfolding insert lookup
total_uses-insert c key subs [] = omega arith
total_uses-insert c key subs ((k, v) ∷ m) = ground (arith, total_uses-insert c key subs m)

uses-drop-le :
    (c id : ℕ) (subs : List Subscription) → uses c (drop_subscriber id subs) ≤ uses c subs
unfolding drop_subscriber
uses-drop-le c id [] = omega arith
uses-drop-le c id (x ∷ subs) = elim (Bool-cases (x.subscriber == id)) [
  | inl e ↦ rw e (omega (arith, uses-drop-le c id subs))
  | inr e ↦ rw e (omega (arith, uses-drop-le c id subs))
]

pub uses-found-le :
    (c : ℕ) (key : String) (m : Assoc (List Subscription)) → uses c (found key m) ≤ total_uses c m
unfolding lookup
uses-found-le c key [] = omega arith
uses-found-le c key ((k, v) ∷ m) = ground (arith, uses-found-le c key m)

-- Two different keys do not share what the map holds of a channel.
pub uses-found_two :
    (c : ℕ) (key other : String) (m : Assoc (List Subscription))
    → key ≢ other
    → uses c (found key m) + uses c (found other m) ≤ total_uses c m
unfolding lookup
uses-found_two c key other [] ne = omega arith
uses-found_two c key other ((k, v) ∷ m) ne = ground (
  arith,
  eq_iff k key,
  eq_iff k other,
  uses-found-le c key m,
  uses-found-le c other m,
  uses-found_two c key other m ne,
)

pub uses-pos :
    {sub : Subscription} (subs : List Subscription) → Memᴰ sub subs → 0 < uses sub.channel subs
uses-pos [] h = elim h [ ]
uses-pos (x ∷ subs) (Memᴰ.head e) = rw e (ground arith)
uses-pos (x ∷ subs) (Memᴰ.tail m) = omega (arith, uses-pos subs m)

-- The subscriptions to the name, and the new one.
abbrev pub grown : (s : State) (id : ℕ) (name : String) → List Subscription
grown s id name =
    found name s.subscriptions ++ record { subscriber = id; channel = length s.buffers } ∷ []

subscribe_cases :
    (id : ℕ) (name : String) (s : State)
    → ((subscribe id name s).0 ≡ s)
      ⊎ ((subscribe id name s).0 ≡ record s {
        subscriptions = insert name (grown s id name) s.subscriptions;
        buffers = s.buffers ++ [] ∷ [];
      })
unfolding subscribe
subscribe_cases id name s = elim (Bool-cases (is_subscribed id name s)) [
  | inl e ↦ inl (ground arith)
  | inr e ↦ inr (elim (Option-cases (lookup name s.subscriptions)) [
    | inl f ↦ ground (arith, f)
    | inr (subs, f) ↦ ground (arith, f)
  ])
]

subscribe-total_uses :
    (c id : ℕ) (name : String) (s : State)
    → let fresh = length s.buffers in
      let s' = (subscribe id name s).0 in
      ((s' ≡ s))
      ⊎ ((total_uses c s'.subscriptions
            ≡ total_uses c s.subscriptions + (if fresh == c then 1 else 0))
          × (length s'.buffers ≡ fresh + 1))
subscribe-total_uses c id name s = elim (subscribe_cases id name s) [
  | inl e ↦ inl e
  | inr e ↦
      let added : Subscription = record { subscriber = id; channel = length s.buffers } in
      inr (
        rw e (
          omega (
            arith,
            total_uses-insert c name (grown s id name) s.subscriptions,
            uses-append c (found name s.subscriptions) (added ∷ []),
          ),
          length-append s.buffers ([] ∷ []),
        ))
]

-- Subscribe keeps the invariant that no channel serves two subscriptions and that every channel of a
-- subscription has been made.
pub subscribe-IsWellFormed :
    (id : ℕ) (name : String) (s : State) → IsWellFormed s → IsWellFormed (subscribe id name s).0
subscribe-IsWellFormed id name s w = record {
  own = λ c. elim (subscribe-total_uses c id name s) [
    | inl e ↦ rw e (w.own c)
    | inr e ↦ ground (arith, e.0, w.own c, w.made c)
  ];
  made = λ c h. elim (subscribe-total_uses c id name s) [
    | inl e ↦ rw e (w.made c (rw e at h))
    | inr e ↦ ground (arith, e.0, e.1, w.own c, w.made c)
  ];
}

unsubscribe-total_uses :
    (c id : ℕ) (name : String) (s : State)
    → let s' = (unsubscribe id name s).0 in
      (total_uses c s'.subscriptions ≤ total_uses c s.subscriptions) × (s'.buffers ≡ s.buffers)
unfolding unsubscribe
unsubscribe-total_uses c id name s = elim (Option-cases (lookup name s.subscriptions)) [
  | inl e ↦ ground (arith, e)
  | inr (subs, e) ↦ ground (
    arith,
    e,
    total_uses-insert c name (drop_subscriber id subs) s.subscriptions,
    uses-drop-le c id subs,
  )
]

-- Unsubscribe keeps the invariant that no channel serves two subscriptions and that every channel of
-- a subscription has been made.
pub unsubscribe-IsWellFormed :
    (id : ℕ) (name : String) (s : State) → IsWellFormed s → IsWellFormed (unsubscribe id name s).0
unsubscribe-IsWellFormed id name s w = record {
  own = λ c. omega (arith, unsubscribe-total_uses c id name s, w.own c);
  made = λ c h.
      let (fewer, same) = unsubscribe-total_uses c id name s in
      omega (arith, fewer, w.made c (rw (← same) h));
}
