-- ===== src/Tuya/Hearing.antt =====
-- The actions of automations, from the event manager to the units.
use mathlib.Core.Path.{subst}
use aghast.Base.{
  ℕ, ◌≡◌, refl, ap, String, Bool, true, false, arith, List, [], ◌∷◌, length, some, Assoc,
  lookup-insert_self, ◌==◌, string_comparable, eq_iff, get_elem?, get_elem?-middle, split, All,
  done, panicked,
}
use aghast.Runtime.{Value}
use aghast.Events.{
  State, Event, Subscription, get_subscriber_id, is_subscribed, subscribe_in, handle_events,
  reaches,
}
use aghast.Events.Names.{Matches, nothing, field, FieldMatches, same, plus, reaches_iff}
use aghast.Events.Channels.{IsWellFormed, grown, found, subscribe-IsWellFormed}
use aghast.Events.Joining.{joined, subscribe-joined, Memᴰ-last, claim_keeps}
use aghast.Events.Queue.{IsVisit, reaching, handle_events-reaches}
use aghast.Tuya.{Tuya}
use aghast.Tuya.Actions.{subscriber_name, action_key, subscribe_actions, on_action}
use aghast.Tuya.Routes.{unit_named, IsLoaded}
use aghast.Tuya.Acting.{acted, on_action_lem}

-- When there is a free number with the event manager, and it has no such subscription yet, the
-- subscription succeeds if the manager has been started, and the subscribed channel will hold
-- exactly the events for Tuya's units that the manager handles, in their order (the names of all
-- events hold no "+"). If the manager has not been started, the subscription panics.
pub subscribe_actions-hears :
    (s claimed : State) (sid : ℕ)
    → IsWellFormed s
    → get_subscriber_id subscriber_name s ≡ done (claimed, sid)
    → is_subscribed sid action_key claimed ≡ false
    → (subscribe_actions false s ≡ panicked)
      × ((s' : State) × (ch : ℕ) × (subscribe_actions true s ≡ done (s', ch))
          × ((evs : List (Event × Assoc (List Subscription))) (s'' : State)
              → All (IsVisit s'.subscriptions) evs
              → handle_events evs s' ≡ done s''
              → get_elem? s''.buffers ch ≡ some (reaching action_key evs)))
unfolding subscribe_actions subscribe_in
subscribe_actions-hears s claimed sid w free new =
    let after = joined sid action_key claimed in
    let ch = length claimed.buffers in
    let sub : Subscription = record { subscriber = sid; channel = ch } in
    let made = subscribe-joined sid action_key claimed new in
    let well : IsWellFormed after = subst IsWellFormed (ap (λ p. p.0) made) (
      subscribe-IsWellFormed sid action_key claimed
        (claim_keeps subscriber_name s claimed sid free w)) in
    (
      rw free refl,
      (
        after,
        ch,
        rw (free, made) refl,
        λ evs s'' visits handled.
            handle_events-reaches evs after s'' action_key (grown claimed sid action_key) sub []
              well visits
              (lookup-insert_self action_key (grown claimed sid action_key) claimed.subscriptions)
              (Memᴰ-last sub (found action_key claimed.subscriptions))
              (get_elem?-middle claimed.buffers [] []) handled,
      ),
    )

literal : {field sub : String} → FieldMatches field sub → (sub == "+") ≡ false → field ≡ sub
literal (same e) no_plus = e
literal {sub} (plus e) no_plus = absurd (ground (arith, (eq_iff sub "+").1 e))

-- The fields of a name that matches the subscription.
four_fields :
    {fields : List String}
    → Matches fields ("Tuya" ∷ "Control" ∷ "+" ∷ "+" ∷ [])
    → (device control : String) × (fields ≡ "Tuya" ∷ "Control" ∷ device ∷ control ∷ [])
four_fields (field p (field q (field {e = device} r (field {e = control} u nothing)))) =
    (device, control, rw (literal p refl, literal q refl) refl)

module _ {F : Type 0} where
  -- When the labels are indexed, an event that reaches the subscription names a device and a control,
  -- so the fields that the code takes are there, and it is handled by the unit of that name: for a
  -- lamp nothing is done, nor for a socket if the control is not power; with power the socket is
  -- switched, and the program ends if the value is not a text or the cloud does not accept it; for an
  -- unknown unit the program ends.
  pub on_action-reaching :
      (accepted : Bool) (ev : Event) (value : Value F) (t : Tuya F)
      → IsLoaded t
      → reaches action_key ev.name ≡ true
      → (device control : String) × (split b'/' ev.name
          ≡ "Tuya" ∷ "Control" ∷ device ∷ control ∷ [])
        × (on_action accepted ev.name value t
            ≡ acted (unit_named device t.conf) accepted control value t)
  unfolding split
  on_action-reaching accepted ev value t w h =
      let (device, control, e) = four_fields ((reaches_iff action_key ev.name).0 h) in
      (
        device,
        control,
        e,
        on_action_lem accepted ev.name device control value t w (ap (λ l. get_elem? l 2) e)
            (ap (λ l. get_elem? l 3) e),
      )
