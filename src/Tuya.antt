-- ===== src/Tuya.antt =====
-- integrations/tuya/tuya.go. The interface of the cloud is not part of the repository: the commands
-- that are posted to it are a list, and what it answers is an argument. Reading and decoding the TOML
-- file is left to the caller of `load_config`.
pub mod Clients
pub mod Status
pub mod Actions
pub mod Routes
pub mod Serving
pub mod Acting
pub mod Hearing
mod Tests
use Prim.Native.String
use aghast.Base.{
  ℕ, ◌+◌, String, Bool, true, false, Option, none, some, List, [], ◌∷◌, ◌++◌, ◌⊎◌, inl, inr, lookup,
  if◌then◌else◌, ◌==◌, string_comparable, Assoc, insert, get_elem?, split, itoa, atoi_value,
  Outcome, done, panicked, fatal, ◌>>=◌,
}
use aghast.Base.Int.{ℤ, pos}
use aghast.Goroutines.{StopChans, begin_each, stop_each}
use aghast.Runtime.{Value, nil, bool, int, string, bytes, as_bool, as_bytes, as_float64, as_string}
use aghast.Mqtt.{Mqtt, AghastMsg, GeneralMsg, send_publish, subscribe_to_topic}

-- The status that the code keeps with a lamp or a socket is never read, and is left out.
pub record Lamp : Type 0 where
  pub device_id : String
  pub label : String
  pub dimmable : Bool
  pub colour : Bool
  pub temperature : Bool

pub record Socket : Type 0 where
  pub device_id : String
  pub label : String

pub record Config : Type 0 where
  pub tuya_region : String
  pub lamp : List Lamp
  pub socket : List Socket

pub record Hsv : Type 0 where
  pub h : ℤ
  pub s : ℤ
  pub v : ℤ

pub record LampStatus : Type 0 where
  pub switch_led : Bool
  pub work_mode : String
  pub bright_value_v2 : ℤ
  pub temp_value_v2 : ℤ
  pub colour_data_v2 : Hsv

pub record SocketStatus (F : Type 0) : Type 0 where
  pub switch_1 : Bool
  pub countdown_1 : F
  pub relay_status : String
  pub light_mode : String

-- A command has a code and a value; a post is for a device.
abbrev pub Command : Type 0 → Type 0
Command F = String × Value F

pub record Tuya (F : Type 0) : Type 0 where
  pub conf : Config
  pub lamps_by_label : Assoc ℕ
  pub sockets_by_label : Assoc ℕ
  pub posts : List (String × List (Command F))
  pub mq : Mqtt (Value F)

-- JSON, and Go's floating-point numbers.
pub record Json (F : Type 0) : Type 0 where
  pub zero_float : F
  pub to_int : F → ℤ  -- int(x)
  pub times_1000 : F → F
  pub unmarshal_client_hsv : String → Option (F × F × F)
  pub unmarshal_hsv : String → Hsv → Hsv  -- what is left where it fails, too
  pub marshal_lamp : LampStatus → String
  pub marshal_socket : SocketStatus F → String

-- What GetDeviceStatus returns: none is an error; otherwise Success, and the codes with their values.
abbrev pub Answer : Type 0 → Type 0
Answer F = Option (Bool × List (Command F))

-- The loops that index the lamps and the sockets by their labels.
unfoldable pub index_by : {A : Type 0} → (label : A → String) → ℕ → List A → Assoc ℕ → Assoc ℕ
index_by label ix [] m = m
index_by label ix (a ∷ rest) m = index_by label (ix + 1) rest (insert (label a) ix m)

abbrev pub lamp_label : Lamp → String
lamp_label l = l.label

abbrev pub socket_label : Socket → String
socket_label s = s.label

-- none: the file cannot be read or decoded.
unfoldable pub load_config : {F : Type 0} → Option Config → Mqtt (Value F) → Outcome (Tuya F)
unfolding index_by
load_config none mq = fatal
load_config (some conf) mq = done (record {
  conf = conf;
  lamps_by_label = index_by lamp_label 0 conf.lamp [];
  sockets_by_label = index_by socket_label 0 conf.socket [];
  posts = [];
  mq = mq;
})

-- The name of the server's constant; an unknown region only warns.
abbrev pub server_of : (region : String) → String
server_of region =
    if region == "CN"
    then "URLCN"
    else if region == "EU"
    then "URLEU"
    else if region == "IN"
    then "URLIN"
    else if region == "US"
    then "URLUS"
    else ""

-- Start: the server, and the four goroutines; that of the clients subscribes.
pub start : {F : Type 0} → Tuya F → StopChans → String × StopChans × Mqtt (Value F) × ℕ
unfolding begin_each
start t chs =
    let (subscribed, ch) = subscribe_to_topic "/tuya/client/#" t.mq in
    (server_of t.conf.tuya_region, begin_each 4 chs, subscribed, ch)

pub stop : StopChans → Outcome StopChans
unfolding stop_each
stop chs = stop_each chs

abbrev pub or_panic {ℓ} : {A : Type ℓ} → Option A → Outcome A
or_panic none = panicked
or_panic (some a) = done a

module _ {F : Type 0} where
  abbrev pub post : String → List (Command F) → Tuya F → Tuya F
  post device commands t = record t { posts = t.posts ++ (device, commands) ∷ [] }

  -- The index of a lamp, or else of a socket, with this label.
  abbrev pub unit_of : (label : String) → Tuya F → Option (ℕ ⊎ ℕ)
  unit_of label t = elim (lookup label t.lamps_by_label) [
    | some ix ↦ some (inl ix)
    | none ↦ elim (lookup label t.sockets_by_label) [ some ix ↦ some (inr ix) | none ↦ none ]
  ]

  abbrev pub status_msg : (label payload : String) → AghastMsg (Value F)
  status_msg label payload = record {
    subtopic = String.◌++◌ "/tuya/" (String.◌++◌ label "/status");
    qos = 0;
    retained = false;
    payload = bytes payload;
  }

  unfoldable pub publish : AghastMsg (Value F) → Tuya F → Outcome (Tuya F)
  publish msg t = do sent ← send_publish msg t.mq; done (record t { mq = sent })

module _ {F : Type 0} (json : Json F) where
  open json use {
    zero_float, to_int, times_1000, unmarshal_client_hsv, unmarshal_hsv, marshal_lamp,
    marshal_socket,
  }

  abbrev pub hsv_text : F × F × F → String
  hsv_text (h, s, v) = String.◌++◌ "{\"h\":" (
      String.◌++◌ (itoa (to_int h)) (
        String.◌++◌ ",\"s\":" (
          String.◌++◌ (itoa (to_int (times_1000 s)))
            (String.◌++◌ ",\"v\":" (String.◌++◌ (itoa (to_int (times_1000 v))) "}")))))

  abbrev pub switch_commands : (payload : String) → List (Command F)
  switch_commands payload =
      if payload == "Off"
      then ("switch_led", bool false) ∷ []
      else if payload == "White"
      then ("switch_led", bool true) ∷ ("work_mode", string "white") ∷ []
      else if payload == "Colour"
      then ("switch_led", bool true) ∷ ("work_mode", string "colour") ∷ []
      else ("", nil) ∷ []

  -- What a control sends to a lamp; none: only a warning. An unknown control sends an empty code.
  unfoldable pub lamp_commands : (control payload : String) → Option (List (Command F))
  lamp_commands control payload =
      if control == "switch"
      then some (switch_commands payload)
      else if control == "switch_led"
      then some (("switch_led", bool (payload == "true")) ∷ [])
      else if control == "colour_data_v2"
      then elim (unmarshal_client_hsv payload) [
        | none ↦ none
        | some hsv ↦ some (("colour_data_v2", string (hsv_text hsv)) ∷ [])
      ]
      else if control == "bright_value_v2"
      then some (("bright_value_v2", int (atoi_value payload)) ∷ [])
      else if control == "temp_value_v2"
      then some (("temp_value_v2", int (atoi_value payload)) ∷ [])
      else some (("", nil) ∷ [])
