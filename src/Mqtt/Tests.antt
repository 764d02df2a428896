-- ===== src/Mqtt/Tests.antt =====
-- The connection to the broker at concrete inputs; the payloads are texts.
use mathlib.Core.List.{Memᴰ, Perm}
use aghast.Base.{
  ℕ, ◌≡◌, ◌≢◌, refl, String, false, none, some, [], ◌∷◌, nat_comparable, string_comparable,
  get_elem?, lookup, lookup_or, insert, with_copies, done,
}
use aghast.Mqtt.{
  fan, run_fan_out, Mqtt, GeneralMsg, Call, subscribe, direct, send, send_each, receive,
  subscribe_to_topic, subscribe_and_map, unsubscribe_from_topic, index_from,
}
use aghast.Mqtt.Subscribers.{unsubscribe_removes, unsubscribe-subscribe}
use aghast.Mqtt.Listening.{handler_of, IsListening, subscribe-IsListening, unsubscribe-IsListening}
use aghast.Mqtt.Resubscribing.{after_fan_outs, resubscribe_deaf}
use aghast.Mqtt.Fanning.{count, receive-fan}

abbrev lamp : String
lamp = "zigbee/lamp"

abbrev silent : Mqtt String
silent = record {
  publish_chan = [];
  third_party_chan = [];
  subs = [];
  inbound = [];
  base_topic = "aghast";
  calls = [];
  fan_outs = [];
}

-- Two subscribers of one topic.
abbrev shared : Mqtt String
shared = record silent { subs = (lamp, 0 ∷ 1 ∷ []) ∷ []; inbound = [] ∷ [] ∷ [] }

-- One subscriber, with its callback.
abbrev single : Mqtt String
single = record silent {
  subs = (lamp, 0 ∷ []) ∷ [];
  inbound = [] ∷ [];
  calls = subscribe lamp (direct 0) ∷ [];
  fan_outs = lamp ∷ [];
}

abbrev lamp_on : GeneralMsg String
lamp_on = record { topic = lamp; qos = 0; retained = false; payload = "ON" }

abbrev shared_told : Mqtt String
shared_told = record shared { inbound = (lamp_on ∷ []) ∷ (lamp_on ∷ []) ∷ [] }

silent-IsListening : IsListening silent
unfolding IsListening lookup
silent-IsListening topic ch chs h = absurd (cc)

first_subscription : (subscribe_to_topic lamp silent).0 ≡ single
unfolding subscribe_to_topic subscribe_and_map lookup insert lookup_or
first_subscription = refl

unknown_topic : lookup lamp silent.subs ≢ some []
unfolding lookup
unknown_topic e = absurd (cc)

subscribe-IsListening_instance : IsListening (subscribe_to_topic lamp silent).0
subscribe-IsListening_instance = subscribe-IsListening lamp silent unknown_topic silent-IsListening

single-IsListening : IsListening single
single-IsListening =
    rw (← first_subscription) (subscribe-IsListening lamp silent unknown_topic silent-IsListening)

abbrev single_left : Mqtt String
single_left = record single {
  calls = subscribe lamp (direct 0) ∷ Call.unsubscribe lamp ∷ [];
  subs = (lamp, []) ∷ [];
}

left : unsubscribe_from_topic lamp 0 single ≡ done single_left
unfolding unsubscribe_from_topic lookup insert index_from
left = refl

unsubscribe-IsListening_instance : IsListening single_left
unsubscribe-IsListening_instance =
    unsubscribe-IsListening lamp 0 single single_left single-IsListening left

-- One subscriber, whose fanOut has run.
abbrev settled : Mqtt String
settled = record single {
  calls = subscribe lamp (direct 0) ∷ subscribe lamp (fan lamp) ∷ [];
  fan_outs = [];
}

settled_from_single : run_fan_out single ≡ settled
unfolding run_fan_out
settled_from_single = refl

resubscribe_deaf_example :
    (m' : Mqtt String) × (unsubscribe_from_topic lamp 0 settled ≡ done m')
    × (let (again, fresh) = subscribe_to_topic lamp m' in
        (lookup lamp again.subs ≡ some (fresh ∷ []))
        × ((n : ℕ) → handler_of lamp (after_fan_outs n again) ≡ none))
unfolding lookup
resubscribe_deaf_example = resubscribe_deaf lamp 0 settled refl tt

unsubscribe_removes_example :
    (m' : Mqtt String) × (unsubscribe_from_topic lamp 0 shared ≡ done m')
    × Perm (0 ∷ lookup_or [] lamp m'.subs) (lookup_or [] lamp shared.subs)
    × ((other : String)
        → lamp ≢ other
        → lookup_or [] other m'.subs ≡ lookup_or [] other shared.subs)
unfolding lookup_or lookup
unsubscribe_removes_example = unsubscribe_removes lamp 0 shared (Memᴰ.head refl)

unsubscribe-subscribe_instance :
    let (subscribed, ch) = subscribe_to_topic lamp shared in
    (m' : Mqtt String) × (unsubscribe_from_topic lamp ch subscribed ≡ done m')
    × ((other : String) → Perm (lookup_or [] other m'.subs) (lookup_or [] other shared.subs))
unsubscribe-subscribe_instance = unsubscribe-subscribe lamp shared

receive-fan_example :
    ((c : ℕ)
      → get_elem? shared_told.inbound c
        ≡ with_copies
            (count c (lookup_or [] lamp shared.subs))
            lamp_on
            (get_elem? shared.inbound c))
    × (shared_told ≡ record shared { inbound = shared_told.inbound })
unfolding receive send send_each lookup lookup_or
receive-fan_example = receive-fan lamp lamp_on shared shared_told refl
