-- ===== src/Events/Tests.antt =====
-- The event manager at concrete inputs.
use mathlib.Core.List.{Memᴰ}
use mathlib.Core.List.Perm
use aghast.Base.{
  some_inj, ℕ, zero, suc, ◌≡◌, ◌≢◌, ◌↔◌, refl, String, true, false, some, List, [], ◌∷◌, ◌==◌,
  nat_comparable, string_comparable, eq_iff, arith, All, get_elem?, Assoc, lookup, insert,
  count_char, split, done, fatal,
}
use aghast.Events.{
  Event, State, Subscription, handle_events, claim_from, slots, get_subscriber_id, is_subscribed,
  subscribe, unsubscribe, reaches, handle_event, send_all, send_or_crash, send_wildcards,
  wildcard_match, fields_match, name_depth,
}
use aghast.Events.Names.{Matches, reaches_iff}
use aghast.Events.Ids.{
  get_subscriber_id_claims, get_subscriber_id_distinct, get_subscriber_id_exhausted,
}
use aghast.Events.Subs.{is_subscribed-subscribe, is_subscribed-unsubscribe}
use aghast.Events.Channels.{IsWellFormed, subscribe-IsWellFormed, unsubscribe-IsWellFormed}
use aghast.Events.Queue.{IsVisit, RoomFor, handle_events-reaches, handle_events_total}
use aghast.Events.Rounds.{EachHasRoom, handle_event-reaches, handle_event_total}

abbrev nobody : State
nobody = record { sub_ids = some ("" ∷ "" ∷ []); subscriptions = []; buffers = [] }

abbrev with_ids : List String → State
with_ids ids = record nobody { sub_ids = some ids }

abbrev lamps : State
lamps = record nobody {
  subscriptions = ("zigbee/+", record { subscriber = 0; channel = 0 } ∷ []) ∷ [];
  buffers = [] ∷ [];
}

abbrev lamp_on : Event
lamp_on = record { name = "zigbee/lamp"; value = "ON" }

abbrev lamps_told : State
lamps_told = record lamps { buffers = (lamp_on ∷ []) ∷ [] }

abbrev time_name : String
time_name = "time"

abbrev first_id : ℕ
first_id = 0

abbrev second_id : ℕ
second_id = 1

time_named : time_name ≢ ""
time_named e = let same : (time_name == "") ≡ true = (eq_iff time_name "").1 e in absurd (cc)

nobody-IsWellFormed : IsWellFormed nobody
nobody-IsWellFormed = record { own = λ c. omega arith; made = λ c h. refl }

subscribed : (subscribe 0 "zigbee/+" nobody).0 ≡ lamps
unfolding subscribe lookup insert is_subscribed
subscribed = refl

lamps-IsWellFormed : IsWellFormed lamps
lamps-IsWellFormed =
    rw (← subscribed) (subscribe-IsWellFormed 0 "zigbee/+" nobody nobody-IsWellFormed)

lamps_have_room : EachHasRoom lamps
lamps_have_room zero waiting h = rw (← some_inj h) (omega arith)
lamps_have_room (suc c) waiting h = absurd (cc)

reaches_iff_example :
    (reaches "zigbee/+" "zigbee/lamp" ≡ true)
    ↔ Matches (split b'/' "zigbee/lamp") (split b'/' "zigbee/+")
reaches_iff_example = reaches_iff "zigbee/+" "zigbee/lamp"

get_subscriber_id_claims_instance :
    (get_elem? (slots nobody.sub_ids) 0 ≡ some "")
    × (get_elem? (slots (some ("time" ∷ "" ∷ []))) 0 ≡ some "time")
    × ((j : ℕ)
        → 0 ≢ j
        → get_elem? (slots (some ("time" ∷ "" ∷ []))) j ≡ get_elem? (slots nobody.sub_ids) j)
    × (nobody.subscriptions ≡ nobody.subscriptions)
    × (nobody.buffers ≡ nobody.buffers)
unfolding get_subscriber_id claim_from slots
get_subscriber_id_claims_instance =
    get_subscriber_id_claims "time" nobody (with_ids ("time" ∷ "" ∷ [])) 0 refl

get_subscriber_id_distinct_instance : first_id ≢ second_id
unfolding get_subscriber_id claim_from slots
get_subscriber_id_distinct_instance =
    get_subscriber_id_distinct "time" "tuya" nobody (with_ids ("time" ∷ "" ∷ []))
      (with_ids ("time" ∷ "tuya" ∷ [])) 0 1 time_named refl refl

get_subscriber_id_exhausted_instance :
    (get_subscriber_id "time" nobody ≡ fatal) ↔ All (λ used. used ≢ "") (slots nobody.sub_ids)
get_subscriber_id_exhausted_instance = get_subscriber_id_exhausted "time" nobody

is_subscribed-subscribe_instance :
    is_subscribed 1 "zigbee/lamp" (subscribe 1 "zigbee/lamp" lamps).0 ≡ true
is_subscribed-subscribe_instance = is_subscribed-subscribe 1 1 "zigbee/lamp" "zigbee/lamp" lamps

is_subscribed-unsubscribe_instance :
    is_subscribed 0 "zigbee/+" (unsubscribe 0 "zigbee/+" lamps).0 ≡ false
is_subscribed-unsubscribe_instance = is_subscribed-unsubscribe 0 0 "zigbee/+" "zigbee/+" lamps

subscribe-IsWellFormed_instance : IsWellFormed (subscribe 1 "zigbee/lamp" lamps).0
subscribe-IsWellFormed_instance = subscribe-IsWellFormed 1 "zigbee/lamp" lamps lamps-IsWellFormed

unsubscribe-IsWellFormed_instance : IsWellFormed (unsubscribe 0 "zigbee/+" lamps).0
unsubscribe-IsWellFormed_instance = unsubscribe-IsWellFormed 0 "zigbee/+" lamps lamps-IsWellFormed

told : handle_event lamp_on lamps.subscriptions lamps ≡ done lamps_told
unfolding handle_event send_all send_wildcards send_or_crash wildcard_match fields_match name_depth
    lookup count_char split
told = refl

handle_event-reaches_instance : get_elem? lamps_told.buffers 0 ≡ some (lamp_on ∷ [])
unfolding count_char wildcard_match fields_match name_depth split lookup
handle_event-reaches_instance =
    handle_event-reaches lamp_on lamps.subscriptions lamps lamps_told "zigbee/+"
      (record { subscriber = 0; channel = 0 } ∷ []) (record { subscriber = 0; channel = 0 })
      lamps-IsWellFormed refl (Perm.refl lamps.subscriptions) refl (Memᴰ.head refl) told

handle_event_total_instance :
    (s' : State) × (handle_event lamp_on lamps.subscriptions lamps ≡ done s')
unfolding count_char
handle_event_total_instance =
    handle_event_total lamp_on lamps.subscriptions lamps lamps-IsWellFormed refl
      (Perm.refl lamps.subscriptions) lamps_have_room

abbrev lamp_off : Event
lamp_off = record { name = "zigbee/lamp"; value = "OFF" }

abbrev second_passed : Event
second_passed = record { name = "time/tick/Second"; value = "" }

abbrev waiting_events : List (Event × Assoc (List Subscription))
waiting_events =
    (lamp_on, lamps.subscriptions)
    ∷ (second_passed, lamps.subscriptions)
    ∷ (lamp_off, lamps.subscriptions)
    ∷ []

waiting_events-IsVisit : All (IsVisit lamps.subscriptions) waiting_events
unfolding count_char
waiting_events-IsVisit =
    let same = Perm.refl lamps.subscriptions in ((refl, same), ((refl, same), ((refl, same), tt)))

all_told :
    handle_events waiting_events lamps
    ≡ done (record lamps { buffers = (lamp_on ∷ lamp_off ∷ []) ∷ [] })
unfolding handle_events handle_event send_all send_wildcards send_or_crash wildcard_match
    fields_match name_depth lookup count_char split
all_told = refl

handle_events-reaches_example :
    get_elem? ((lamp_on ∷ lamp_off ∷ []) ∷ []) 0 ≡ some (lamp_on ∷ lamp_off ∷ [])
unfolding count_char wildcard_match fields_match name_depth split lookup
handle_events-reaches_example =
    handle_events-reaches waiting_events lamps
      (record lamps { buffers = (lamp_on ∷ lamp_off ∷ []) ∷ [] }) "zigbee/+"
      (record { subscriber = 0; channel = 0 } ∷ []) (record { subscriber = 0; channel = 0 }) []
      lamps-IsWellFormed waiting_events-IsVisit refl (Memᴰ.head refl) refl all_told

lamps-RoomFor : RoomFor 3 lamps
lamps-RoomFor zero waiting h = rw (← some_inj h) (omega arith)
lamps-RoomFor (suc c) waiting h = absurd (cc)

handle_events_total_example : (s' : State) × (handle_events waiting_events lamps ≡ done s')
handle_events_total_example =
    handle_events_total waiting_events lamps lamps-IsWellFormed waiting_events-IsVisit lamps-RoomFor
