-- ===== src/Events.antt =====
-- events/events.go: the event manager. The package's variables are the record `State`; a channel
-- is its number, and its waiting events are a list in `buffers`. A Go map is an association list,
-- whose order is the order in which a loop over the map visits it.
pub mod Names
pub mod Ids
pub mod Subs
pub mod Channels
pub mod Delivery
pub mod Rounds
pub mod Queue
pub mod Joining
mod Tests
use aghast.Base.{
  ℕ, zero, suc, ◌+◌, String, Bool, true, false, ◌&&◌, ◌||◌, not, Option, none, some, List, [], ◌∷◌,
  ◌++◌, if◌then◌else◌, ◌==◌, nat_comparable, string_comparable, leb, ltb, length, replicate,
  get_elem?, set, Assoc, lookup, insert, Outcome, done, panicked, fatal, ◌>>=◌, split, count_char,
}
use Prim.Native.String

-- The value is passed on unread.
pub record Event : Type 0 where
  pub name : String
  pub value : String

pub record Subscription : Type 0 where
  pub subscriber : ℕ
  pub channel : ℕ

pub record State : Type 0 where
  pub sub_ids : Option (List String)  -- none is Go's nil slice
  pub subscriptions : Assoc (List Subscription)
  pub buffers : List (List Event)

abbrev pub max_subscriptions : ℕ
max_subscriptions = 1000

abbrev pub subscriber_events_buffered : ℕ
subscriber_events_buffered = 100

-- The loop of GetSubscriberID: the first free slot, from index `i` on.
unfoldable pub claim_from : ℕ → String → List String → Option (List String × ℕ)
claim_from i name [] = none
claim_from i name (used ∷ rest) =
    let later = claim_from (i + 1) name rest in
    if used == ""
    then some (name ∷ rest, i)
    else elim later [ none ↦ none | some (rest', k) ↦ some (used ∷ rest', k) ]

unfoldable pub slots : Option (List String) → List String
slots none = replicate max_subscriptions ""
slots (some ids) = ids

unfoldable pub get_subscriber_id : String → State → Outcome (State × ℕ)
get_subscriber_id name s = elim (claim_from 0 name (slots s.sub_ids)) [
  | none ↦ fatal
  | some (ids, i) ↦ done (record s { sub_ids = some ids }, i)
]

-- The map of subscriptions is made anew.
pub start_event_manager : State → State
start_event_manager s = record s { subscriptions = [] }

pub holds_subscriber : ℕ → List Subscription → Bool
holds_subscriber id [] = false
holds_subscriber id (sub ∷ subs) = sub.subscriber == id || holds_subscriber id subs

unfoldable pub is_subscribed : ℕ → String → State → Bool
unfolding holds_subscriber
is_subscribed id name s = elim (lookup name s.subscriptions) [
  | none ↦ false
  | some subs ↦ holds_subscriber id subs
]

pub data SubscribeResult : Type 0 where
  channel : ℕ → SubscribeResult
  already_subscribed : SubscribeResult

-- `make(chan EventT, …)` is the next number of `buffers`.
pub subscribe : ℕ → String → State → State × SubscribeResult
unfolding is_subscribed
subscribe id name s =
    let fresh = length s.buffers in
    let sub : Subscription = record { subscriber = id; channel = fresh } in
    let subs : List Subscription = elim (lookup name s.subscriptions) [
      | none ↦ sub ∷ []
      | some subs ↦ subs ++ sub ∷ []
    ] in
    if is_subscribed id name s then (s, already_subscribed) else (
      record s { subscriptions = insert name subs s.subscriptions; buffers = s.buffers ++ [] ∷ [] },
      channel fresh,
    )

pub drop_subscriber : ℕ → List Subscription → List Subscription
drop_subscriber id [] = []
drop_subscriber id (sub ∷ subs) =
    if sub.subscriber == id then drop_subscriber id subs else sub ∷ drop_subscriber id subs

-- The Boolean is false where Go returns the error "Not subscribed to event".
pub unsubscribe : ℕ → String → State → State × Bool
unfolding is_subscribed drop_subscriber
unsubscribe id name s = elim (lookup name s.subscriptions) [
  | none ↦ (s, false)
  | some subs ↦
      if holds_subscriber id subs
      then (
        record s { subscriptions = insert name (drop_subscriber id subs) s.subscriptions },
        true,
      )
      else (s, false)
]

-- A send that would wait ends the program instead.
pub send_or_crash : Event → Subscription → List (List Event) → Outcome (List (List Event))
send_or_crash ev dest buffers = elim (get_elem? buffers dest.channel) [
  | none ↦ panicked
  | some waiting ↦
      if ltb (length waiting) subscriber_events_buffered
      then done (set buffers dest.channel (waiting ++ ev ∷ []))
      else fatal
]

pub send_all : Event → List Subscription → List (List Event) → Outcome (List (List Event))
send_all ev [] buffers = done buffers
send_all ev (dest ∷ dests) buffers = do
  buffers' ← send_or_crash ev dest buffers
  send_all ev dests buffers'

pub name_depth : String → ℕ
name_depth name = count_char b'/' name + 1

-- The loop over the fields of an event's name and a subscription's. It runs when both have the same
-- depth, so `splitSub[i]` is never out of range (`length-split` in Names).
pub fields_match : List String → List String → Bool
fields_match [] subs = true
fields_match (e ∷ es) [] = false
fields_match (e ∷ es) (s ∷ ss) = (e == s || s == "+") && fields_match es ss

pub wildcard_match : String → String → Bool
unfolding name_depth fields_match
wildcard_match key name =
    ltb 0 (count_char b'+' key)
    && name_depth key == name_depth name
    && fields_match (split b'/' name) (split b'/' key)

-- What the two parts of eventManager test of one subscription: its key is the event's name, or
-- matches it with pluses.
abbrev pub reaches : String → String → Bool
reaches key name = key == name || wildcard_match key name

-- The loop over the map of subscriptions.
pub send_wildcards :
    Event → Assoc (List Subscription) → List (List Event) → Outcome (List (List Event))
send_wildcards ev [] buffers = done buffers
send_wildcards ev ((key, subs) ∷ rest) buffers = do
  buffers' ← (if wildcard_match key ev.name then send_all ev subs buffers else done buffers)
  send_wildcards ev rest buffers'

abbrev pub subs_of : String → State → List Subscription
subs_of name s = elim (lookup name s.subscriptions) [ none ↦ [] | some subs ↦ subs ]

-- One round of eventManager. `order` is the map of subscriptions, in the order in which Go happens
-- to visit it.
pub handle_event : Event → Assoc (List Subscription) → State → Outcome State
unfolding send_wildcards wildcard_match send_all
handle_event ev order s = do
  explicit ← send_all ev (subs_of ev.name s) s.buffers
  buffers' ← send_wildcards ev order explicit
  done (record s { buffers = buffers' })

-- The rounds of eventManager for the events that wait, each with the order of its loop over the map.
pub handle_events : List (Event × Assoc (List Subscription)) → State → Outcome State
unfolding handle_event
handle_events [] s = done s
handle_events ((ev, order) ∷ evs) s = do s' ← handle_event ev order s; handle_events evs s'

-- Subscribe on the package's variable, which is a nil map until StartEventManager makes it: nobody is
-- subscribed then, and the entry is written to the nil map.
unfoldable pub subscribe_in :
    (map_made : Bool) → ℕ → String → State → Outcome (State × SubscribeResult)
unfolding subscribe
subscribe_in false id name s = panicked
subscribe_in true id name s = done (subscribe id name s)
