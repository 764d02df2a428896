-- ===== src/Tuya/Tests.antt =====
-- Lamps and sockets at concrete inputs; a floating-point number is a natural one.
use aghast.Base.{
  List, lookup, All, Assoc, arith, ℕ, ◌≡◌, refl, String, true, false, none, some, [], ◌∷◌, inl,
  insert, get_elem?, split, done, panicked, fatal,
}
use aghast.Base.Int.{pos}
use aghast.Runtime.{Value, bool, string, bytes}
use aghast.Mqtt.{Mqtt, GeneralMsg}
use aghast.Tuya.{Lamp, Socket, Config, Tuya, Json, index_by, post, lamp_commands}
use aghast.Tuya.Clients.{on_client, command_lamp}
use aghast.Tuya.Actions.{action_key, subscribe_actions, on_action}
use aghast.Tuya.Routes.{IsLoaded, unit_named}
use aghast.Tuya.Serving.{on_client_lem, on_client_short}
use aghast.Tuya.Acting.{acted, on_action_lem}
use aghast.Tuya.Hearing.{subscribe_actions-hears, on_action-reaching}
use aghast.Events.{
  State, Event, Subscription, get_subscriber_id, claim_from, slots, is_subscribed, handle_events,
  reaches,
}
use aghast.Events.Channels.{IsWellFormed}
use aghast.Events.Queue.{IsVisit, reaching}
use aghast.Events.Names.{reaches_iff, nothing, field, same, plus}

abbrev json : Json ℕ
json = record {
  zero_float = 0;
  to_int = λ x. pos x;
  times_1000 = λ x. x;
  unmarshal_client_hsv = λ text. none;
  unmarshal_hsv = λ text hsv. hsv;
  marshal_lamp = λ st. "{}";
  marshal_socket = λ st. "{}";
}

abbrev desk : Lamp
desk = record {
  device_id = "d1";
  label = "Desk";
  dimmable = true;
  colour = true;
  temperature = false;
}

abbrev heater : Socket
heater = record { device_id = "d2"; label = "Heater" }

abbrev home : Config
home = record { tuya_region = "EU"; lamp = desk ∷ []; socket = heater ∷ [] }

abbrev silent : Mqtt (Value ℕ)
silent = record {
  publish_chan = [];
  third_party_chan = [];
  subs = [];
  inbound = [];
  base_topic = "aghast";
  calls = [];
  fan_outs = [];
}

abbrev tuya : Tuya ℕ
tuya = record {
  conf = home;
  lamps_by_label = ("Desk", 0) ∷ [];
  sockets_by_label = ("Heater", 0) ∷ [];
  posts = [];
  mq = silent;
}

tuya-IsLoaded : IsLoaded tuya
unfolding index_by insert
tuya-IsLoaded = record { lamps = refl; sockets = refl }

abbrev topic : String
topic = "/tuya/client/Desk/switch"

abbrev off : GeneralMsg (Value ℕ)
off = record { topic = topic; qos = 0; retained = false; payload = bytes "Off" }

topic_label : get_elem? (split b'/' topic) 3 ≡ some "Desk"
unfolding split
topic_label = refl

topic_control : get_elem? (split b'/' topic) 4 ≡ some "switch"
unfolding split
topic_control = refl

on_client_lem_example :
    on_client json false none off tuya ≡ command_lamp json false none "switch" "Off" desk tuya
on_client_lem_example =
    on_client_lem json false none off "Desk" "switch" "Off" tuya tuya-IsLoaded refl topic_label
      topic_control

switched_off :
    command_lamp json false none "switch" "Off" desk tuya
    ≡ done (post "d1" (("switch_led", bool false) ∷ []) tuya)
unfolding command_lamp lamp_commands
switched_off = refl

abbrev short_topic : String
short_topic = "/tuya/client/Desk"

abbrev short_msg : GeneralMsg (Value ℕ)
short_msg = record { topic = short_topic; qos = 0; retained = false; payload = bytes "Off" }

short_label : get_elem? (split b'/' short_topic) 3 ≡ some "Desk"
unfolding split
short_label = refl

no_control : get_elem? (split b'/' short_topic) 4 ≡ none
unfolding split
no_control = refl

on_client_short_example : on_client json true none short_msg tuya ≡ panicked
on_client_short_example =
    on_client_short json true none short_msg "Desk" "Off" (inl desk) tuya tuya-IsLoaded refl
      short_label no_control refl

abbrev action : String
action = "Tuya/Control/Cooker/power"

action_device : get_elem? (split b'/' action) 2 ≡ some "Cooker"
unfolding split
action_device = refl

action_control : get_elem? (split b'/' action) 3 ≡ some "power"
unfolding split
action_control = refl

-- No unit has this label.
on_action_lem_instance : on_action true action (string "on") tuya ≡ fatal
on_action_lem_instance =
    on_action_lem true action "Cooker" "power" (string "on") tuya tuya-IsLoaded action_device
      action_control

abbrev cooker_on : Event
cooker_on = record { name = action; value = "on" }

abbrev no_events : State
no_events = record { sub_ids = some ("" ∷ []); subscriptions = []; buffers = [] }

abbrev tuya_claimed : State
tuya_claimed = record no_events { sub_ids = some ("Tuya" ∷ []) }

no_events-IsWellFormed : IsWellFormed no_events
no_events-IsWellFormed = record { own = λ c. omega arith; made = λ c h. refl }

subscribe_actions-hears_example :
    (subscribe_actions false no_events ≡ panicked)
    × ((s' : State) × (ch : ℕ) × (subscribe_actions true no_events ≡ done (s', ch))
        × ((evs : List (Event × Assoc (List Subscription))) (s'' : State)
            → All (IsVisit s'.subscriptions) evs
            → handle_events evs s' ≡ done s''
            → get_elem? s''.buffers ch ≡ some (reaching action_key evs)))
unfolding get_subscriber_id claim_from slots is_subscribed lookup
subscribe_actions-hears_example =
    subscribe_actions-hears no_events tuya_claimed 0 no_events-IsWellFormed refl refl

cooker_reaches : reaches action_key cooker_on.name ≡ true
unfolding split
cooker_reaches =
    (reaches_iff action_key action).1
      (field (same refl) (field (same refl) (field (plus refl) (field (plus refl) nothing))))

on_action-reaching_example :
    (device control : String) × (split b'/' action ≡ "Tuya" ∷ "Control" ∷ device ∷ control ∷ [])
    × (on_action true action (string "on") tuya
        ≡ acted (unit_named device home) true control (string "on") tuya)
on_action-reaching_example =
    on_action-reaching true cooker_on (string "on") tuya tuya-IsLoaded cooker_reaches
