-- ===== src/Tuya/Serving.antt =====
-- What a message of a client does.
use aghast.Base.{
  ℕ, ◌≡◌, refl, ◌∙◌, String, Bool, Option, none, some, List, ◌⊎◌, inl, inr, string_comparable,
  get_elem?, split, Outcome, done, panicked, ◌>>=◌,
}
use mathlib.Core.Path.{subst}
use aghast.Runtime.{Value, bytes}
use aghast.Mqtt.{GeneralMsg}
use aghast.Tuya.{Lamp, Socket, Tuya, Json, Answer, or_panic, unit_of}
use aghast.Tuya.Clients.{command_lamp, command_socket, on_client}
use aghast.Tuya.Routes.{unit_named, IsLoaded, Stands, unit_of-Stands}

module _ {F : Type 0} (json : Json F) (accepted : Bool) (answer : Answer F) where
  -- What is done for the unit.
  abbrev pub commanded :
      Option (Lamp ⊎ Socket) → (control payload : String) → Tuya F → Outcome (Tuya F)
  commanded none control payload t = done t
  commanded (some (inl l)) control payload t = command_lamp json accepted answer control payload l t
  commanded (some (inr s)) control payload t = command_socket json accepted answer payload s t

  abbrev serve : Option (ℕ ⊎ ℕ) → (payload : String) → List String → Tuya F → Outcome (Tuya F)
  serve u payload topic t = elim u [
    | none ↦ done t
    | some (inl ix) ↦
        (or_panic (get_elem? topic 4) >>= λ control. or_panic (get_elem? t.conf.lamp ix) >>= λ l.
        command_lamp json accepted answer control payload l t)
    | some (inr ix) ↦
        (or_panic (get_elem? topic 4) >>= λ control. or_panic (get_elem? t.conf.socket ix) >>= λ s.
        command_socket json accepted answer payload s t)
  ]

  serve-Stands :
      (u : Option (ℕ ⊎ ℕ)) (unit : Option (Lamp ⊎ Socket)) (control payload : String)
      (topic : List String) (t : Tuya F)
      → get_elem? topic 4 ≡ some control
      → Stands t u unit
      → serve u payload topic t ≡ commanded unit control payload t
  serve-Stands none none control payload topic t at there = refl
  serve-Stands (some (inl k)) (some (inl l)) control payload topic t at there = rw (at, there) refl
  serve-Stands (some (inr k)) (some (inr s)) control payload topic t at there = rw (at, there) refl
  serve-Stands none (some (inl l)) control payload topic t at there = absurd there
  serve-Stands none (some (inr s)) control payload topic t at there = absurd there
  serve-Stands (some (inl k)) none control payload topic t at there = absurd there
  serve-Stands (some (inr k)) none control payload topic t at there = absurd there
  serve-Stands (some (inl k)) (some (inr s)) control payload topic t at there = absurd there
  serve-Stands (some (inr k)) (some (inl l)) control payload topic t at there = absurd there

  -- A message of a client with a label and a control in its topic is done for the unit of the
  -- configuration with that label, a lamp before a socket and the last of several, and for no other;
  -- with an unknown label nothing is done.
  pub on_client_lem :
      (msg : GeneralMsg (Value F)) (label control payload : String) (t : Tuya F)
      → IsLoaded t
      → msg.payload ≡ bytes payload
      → get_elem? (split b'/' msg.topic) 3 ≡ some label
      → get_elem? (split b'/' msg.topic) 4 ≡ some control
      → on_client json accepted answer msg t ≡ commanded (unit_named label t.conf) control payload t
  unfolding on_client
  on_client_lem msg label control payload t w of_bytes at_label at_control =
      let topic = split b'/' msg.topic in
      let way : on_client json accepted answer msg t ≡ serve (unit_of label t) payload topic t =
        rw (on_client, of_bytes, at_label) refl in
      way
      ∙ serve-Stands (unit_of label t) (unit_named label t.conf) control payload topic t at_control
          (unit_of-Stands label t w)

  serve_short :
      (u : Option (ℕ ⊎ ℕ)) (unit : Lamp ⊎ Socket) (payload : String) (topic : List String)
      (t : Tuya F)
      → get_elem? topic 4 ≡ none
      → Stands t u (some unit)
      → serve u payload topic t ≡ panicked
  serve_short none (inl l) payload topic t short there = absurd there
  serve_short none (inr s) payload topic t short there = absurd there
  serve_short (some (inl k)) unit payload topic t short there = rw short refl
  serve_short (some (inr k)) unit payload topic t short there = rw short refl

  -- A message of a client whose topic ends with the label of a configured unit, without a control,
  -- ends the program.
  pub on_client_short :
      (msg : GeneralMsg (Value F)) (label payload : String) (unit : Lamp ⊎ Socket) (t : Tuya F)
      → IsLoaded t
      → msg.payload ≡ bytes payload
      → get_elem? (split b'/' msg.topic) 3 ≡ some label
      → get_elem? (split b'/' msg.topic) 4 ≡ none
      → unit_named label t.conf ≡ some unit
      → on_client json accepted answer msg t ≡ panicked
  unfolding on_client
  on_client_short msg label payload unit t w of_bytes at_label short known =
      let topic = split b'/' msg.topic in
      let way : on_client json accepted answer msg t ≡ serve (unit_of label t) payload topic t =
        rw (on_client, of_bytes, at_label) refl in
      way
      ∙ serve_short (unit_of label t) unit payload topic t short
          (subst (Stands t (unit_of label t)) known (unit_of-Stands label t w))
