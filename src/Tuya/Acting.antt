-- ===== src/Tuya/Acting.antt =====
-- What an event of an automation does.
use aghast.Base.{
  ℕ, ◌≡◌, refl, ◌∙◌, String, Bool, Option, none, some, List, [], ◌∷◌, ◌⊎◌, inl, inr, if◌then◌else◌,
  ◌==◌, string_comparable, get_elem?, split, Outcome, done, fatal, ◌>>=◌,
}
use aghast.Runtime.{Value, bool, as_string}
use aghast.Tuya.{Lamp, Socket, Tuya, or_panic, unit_of, post}
use aghast.Tuya.Actions.{switch_power, on_action}
use aghast.Tuya.Routes.{unit_named, IsLoaded, Stands, unit_of-Stands}

module _ {F : Type 0} where
  -- What an event does to its unit.
  abbrev pub acted :
      Option (Lamp ⊎ Socket)
      → (accepted : Bool) → (control : String) → Value F
      → Tuya F
      → Outcome (Tuya F)
  acted none accepted control value t = fatal
  acted (some (inl l)) accepted control value t = done t
  acted (some (inr s)) accepted control value t =
      if control == "power"
      then (as_string value >>= λ wish.
          if accepted
          then done (post s.device_id (("switch_1", bool (wish == "on")) ∷ []) t)
          else fatal)
      else done t

  abbrev act :
      Option (ℕ ⊎ ℕ) → (accepted : Bool) → List String → Value F → Tuya F → Outcome (Tuya F)
  act u accepted fields value t = elim u [
    | none ↦ fatal
    | some (inl ix) ↦ done t
    | some (inr ix) ↦
        (or_panic (get_elem? fields 3) >>= λ control.
        if control == "power" then switch_power accepted value ix t else done t)
  ]

  act-Stands :
      (u : Option (ℕ ⊎ ℕ)) (unit : Option (Lamp ⊎ Socket)) (accepted : Bool) (control : String)
      (fields : List String) (value : Value F) (t : Tuya F)
      → get_elem? fields 3 ≡ some control
      → Stands t u unit
      → act u accepted fields value t ≡ acted unit accepted control value t
  unfolding switch_power
  act-Stands none none accepted control fields value t at there = refl
  act-Stands (some (inl k)) (some (inl l)) accepted control fields value t at there = refl
  act-Stands (some (inr k)) (some (inr s)) accepted control fields value t at there =
      rw (at, switch_power, there) refl
  act-Stands none (some (inl l)) accepted control fields value t at there = absurd there
  act-Stands none (some (inr s)) accepted control fields value t at there = absurd there
  act-Stands (some (inl k)) none accepted control fields value t at there = absurd there
  act-Stands (some (inr k)) none accepted control fields value t at there = absurd there
  act-Stands (some (inl k)) (some (inr s)) accepted control fields value t at there = absurd there
  act-Stands (some (inr k)) (some (inl l)) accepted control fields value t at there = absurd there

  -- An event of an automation: for an unknown unit the program ends; for a lamp nothing is done; a
  -- socket is switched, if the control is power, and the program ends if the cloud does not accept it.
  pub on_action_lem :
      (accepted : Bool) (ev_name device control : String) (value : Value F) (t : Tuya F)
      → IsLoaded t
      → get_elem? (split b'/' ev_name) 2 ≡ some device
      → get_elem? (split b'/' ev_name) 3 ≡ some control
      → on_action accepted ev_name value t
        ≡ acted (unit_named device t.conf) accepted control value t
  unfolding on_action
  on_action_lem accepted ev_name device control value t w at_device at_control =
      let fields = split b'/' ev_name in
      let way : on_action accepted ev_name value t
          ≡ act (unit_of device t) accepted fields value t =
        rw (on_action, at_device) refl in
      way
      ∙ act-Stands (unit_of device t) (unit_named device t.conf) accepted control fields value t
          at_control (unit_of-Stands device t w)
