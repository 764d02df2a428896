-- ===== src/Tuya/Status.antt =====
-- getLampStatus and getSocketStatus, and a round of the goroutines that call them every minute. The
-- answer of the cloud for a device is an argument.
use aghast.Base.{
  true, false, none, some, List, [], ◌∷◌, if◌then◌else◌, ◌==◌, string_comparable, Outcome, done,
  ◌>>=◌,
}
use aghast.Base.Int.{pos}
use aghast.Runtime.{as_bool, as_float64, as_string}
use aghast.Tuya.{
  Lamp, Socket, LampStatus, SocketStatus, Command, Tuya, Json, Answer, status_msg, publish,
}

module _ {F : Type 0} (json : Json F) where
  open json use {zero_float, to_int, unmarshal_hsv, marshal_lamp, marshal_socket}

  abbrev pub no_lamp_status : LampStatus
  no_lamp_status = record {
    switch_led = false;
    work_mode = "";
    bright_value_v2 = pos 0;
    temp_value_v2 = pos 0;
    colour_data_v2 = record { h = pos 0; s = pos 0; v = pos 0 };
  }

  abbrev pub no_socket_status : SocketStatus F
  no_socket_status = record {
    switch_1 = false;
    countdown_1 = zero_float;
    relay_status = "";
    light_mode = "";
  }

  -- One of the results; an unknown code is passed over.
  unfoldable pub read_lamp : Command F → LampStatus → Outcome LampStatus
  read_lamp (code, v) st =
      if code == "switch_led"
      then (as_bool v >>= λ b. done (record st { switch_led = b }))
      else if code == "work_mode"
      then (as_string v >>= λ s. done (record st { work_mode = s }))
      else if code == "bright_value_v2"
      then (as_float64 v >>= λ x. done (record st { bright_value_v2 = to_int x }))
      else if code == "temp_value_v2"
      then (as_float64 v >>= λ x. done (record st { temp_value_v2 = to_int x }))
      else if code == "colour_data_v2"
      then (as_string v >>= λ s.
          done (record st { colour_data_v2 = unmarshal_hsv s st.colour_data_v2 }))
      else done st

  unfoldable pub read_lamp_results : List (Command F) → LampStatus → Outcome LampStatus
  unfolding read_lamp
  read_lamp_results [] st = done st
  read_lamp_results (r ∷ rs) st = do next ← read_lamp r st; read_lamp_results rs next

  unfoldable pub get_lamp_status : Answer F → Lamp → Tuya F → Outcome (Tuya F)
  unfolding read_lamp_results publish
  get_lamp_status none l t = done t
  get_lamp_status (some (false, results)) l t = done t
  get_lamp_status (some (true, results)) l t = do
    st ← read_lamp_results results no_lamp_status
    publish (status_msg l.label (marshal_lamp st)) t

  unfoldable pub read_socket : Command F → SocketStatus F → Outcome (SocketStatus F)
  read_socket (code, v) st =
      if code == "switch_1"
      then (as_bool v >>= λ b. done (record st { switch_1 = b }))
      else if code == "countdown_1"
      then (as_float64 v >>= λ x. done (record st { countdown_1 = x }))
      else if code == "relay_status"
      then (as_string v >>= λ s. done (record st { relay_status = s }))
      else if code == "light_mode"
      then (as_string v >>= λ s. done (record st { light_mode = s }))
      else done st

  unfoldable pub read_socket_results : List (Command F) → SocketStatus F → Outcome (SocketStatus F)
  unfolding read_socket
  read_socket_results [] st = done st
  read_socket_results (r ∷ rs) st = do next ← read_socket r st; read_socket_results rs next

  unfoldable pub get_socket_status : Answer F → Socket → Tuya F → Outcome (Tuya F)
  unfolding read_socket_results publish
  get_socket_status none sock t = done t
  get_socket_status (some (false, results)) sock t = done t
  get_socket_status (some (true, results)) sock t = do
    st ← read_socket_results results no_socket_status
    publish (status_msg sock.label (marshal_socket st)) t

  -- A round of monitorLamps, and of monitorSockets.
  unfoldable pub check_lamps : (Lamp → Answer F) → List Lamp → Tuya F → Outcome (Tuya F)
  unfolding get_lamp_status
  check_lamps answers [] t = done t
  check_lamps answers (l ∷ ls) t = do
    next ← get_lamp_status (answers l) l t
    check_lamps answers ls next

  unfoldable pub check_sockets : (Socket → Answer F) → List Socket → Tuya F → Outcome (Tuya F)
  unfolding get_socket_status
  check_sockets answers [] t = done t
  check_sockets answers (s ∷ ss) t = do
    next ← get_socket_status (answers s) s t
    check_sockets answers ss next
