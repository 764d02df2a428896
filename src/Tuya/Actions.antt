-- ===== src/Tuya/Actions.antt =====
-- monitorActions: its subscription, and one event of an automation with whether the cloud accepts the
-- post.
use aghast.Base.{
  ℕ, String, Bool, none, some, [], ◌∷◌, inl, inr, if◌then◌else◌, ◌==◌, string_comparable, get_elem?,
  split, Outcome, done, fatal, ◌>>=◌,
}
use aghast.Runtime.{Value, bool, as_string}
use aghast.Events.{State, channel, already_subscribed, get_subscriber_id, subscribe_in}
use aghast.Tuya.{Tuya, or_panic, unit_of, post}

abbrev pub subscriber_name : String
subscriber_name = "Tuya"

abbrev pub action_key : String
action_key = "Tuya/Control/+/+"

-- How monitorActions begins: its number with the event manager, and its channel. `map_made` is
-- whether StartEventManager has run.
unfoldable pub subscribe_actions : (map_made : Bool) → State → Outcome (State × ℕ)
subscribe_actions map_made s = do
  (claimed, sid) ← get_subscriber_id subscriber_name s
  (s', result) ← subscribe_in map_made sid action_key claimed
  elim result [ channel ch ↦ done (s', ch) | already_subscribed ↦ fatal ]

module _ {F : Type 0} where
  -- The code unlocks the mutex when a post fails, and for an unknown unit, though it has not locked it:
  -- the run time ends the program then.
  unfoldable pub switch_power : (accepted : Bool) → Value F → (ix : ℕ) → Tuya F → Outcome (Tuya F)
  switch_power accepted value ix t = do
    wish ← as_string value
    sock ← or_panic (get_elem? t.conf.socket ix)
    let posted = post sock.device_id (("switch_1", bool (wish == "on")) ∷ []) t
    (if accepted then done posted else fatal)

  unfoldable pub on_action :
      (accepted : Bool) → (ev_name : String) → Value F → Tuya F → Outcome (Tuya F)
  unfolding switch_power
  on_action accepted ev_name value t = do
    let fields = split b'/' ev_name
    device ← or_panic (get_elem? fields 2)
    elim (unit_of device t) [
      | none ↦ fatal
      | some (inl ix) ↦ done t
      | some (inr ix) ↦ (do
        control ← or_panic (get_elem? fields 3)
        (if control == "power" then switch_power accepted value ix t else done t))
    ]
