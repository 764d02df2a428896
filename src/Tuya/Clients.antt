-- ===== src/Tuya/Clients.antt =====
-- monitorClients: one message of a client, with whether the cloud accepts the post and its later
-- answer on the status.
use aghast.Base.{
  String, Bool, none, some, [], ◌∷◌, inl, inr, if◌then◌else◌, ◌==◌, string_comparable, get_elem?,
  split, Outcome, done, ◌>>=◌,
}
use aghast.Runtime.{Value, bool, as_bytes}
use aghast.Mqtt.{GeneralMsg}
use aghast.Tuya.{Lamp, Socket, Tuya, Json, Answer, or_panic, unit_of, post, lamp_commands}
use aghast.Tuya.Status.{get_lamp_status, get_socket_status}

module _ {F : Type 0} (json : Json F) where
  unfoldable pub command_lamp :
      (accepted : Bool) → Answer F → (control payload : String) → Lamp → Tuya F → Outcome (Tuya F)
  unfolding lamp_commands get_lamp_status
  command_lamp accepted answer control payload l t = elim (lamp_commands json control payload) [
    | none ↦ done t
    | some commands ↦
        let posted = post l.device_id commands t in
        if accepted then get_lamp_status json answer l posted else done posted
  ]

  unfoldable pub command_socket :
      (accepted : Bool) → Answer F → (payload : String) → Socket → Tuya F → Outcome (Tuya F)
  unfolding get_socket_status
  command_socket accepted answer payload sock t =
      let posted = post sock.device_id (("switch_1", bool (payload == "On")) ∷ []) t in
      if accepted then get_socket_status json answer sock posted else done posted

  unfoldable pub on_client :
      (accepted : Bool) → Answer F → GeneralMsg (Value F) → Tuya F → Outcome (Tuya F)
  unfolding command_lamp command_socket
  on_client accepted answer msg t = do
    payload ← as_bytes msg.payload
    let topic = split b'/' msg.topic
    label ← or_panic (get_elem? topic 3)
    elim (unit_of label t) [
      | none ↦ done t
      | some (inl ix) ↦ (do
        control ← or_panic (get_elem? topic 4)
        l ← or_panic (get_elem? t.conf.lamp ix)
        command_lamp accepted answer control payload l t)
      | some (inr ix) ↦ (do
        control ← or_panic (get_elem? topic 4)
        sock ← or_panic (get_elem? t.conf.socket ix)
        command_socket accepted answer payload sock t)
    ]
