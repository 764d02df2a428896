-- ===== src/Events/Queue.antt =====
-- The rounds of eventManager one after the other: what a channel has received of the events that
-- waited, and in which order.
use mathlib.Core.List.{Memᴰ, Perm, append_assoc, append-nil}
use mathlib.Core.Path.{subst}
use aghast.Base.{
  ℕ, ◌+◌, ◌≤◌, ◌≡◌, refl, sym, ap, ◌∙◌, inl, inr, String, arith, List, [], ◌∷◌, ◌++◌,
  nat_comparable, string_comparable, length, length-append, Assoc, lookup, if◌then◌else◌, get_elem?,
  get_elem?-some_lt, get_elem?_of_lt, some, some_inj, Bool-cases, Option-cases, with_copies, done,
  done-injective, >>=-eq-done, leb, All, count_char, replicate, length-replicate,
}
use aghast.Events.{
  State, Event, Subscription, subs_of, send_all, handle_event, handle_events, reaches,
  subscriber_events_buffered,
}
use aghast.Events.Channels.{IsWellFormed, uses}
use aghast.Events.Delivery.{wild_uses, wild_targets, handle_event_targets, handle_event_lem}
use aghast.Events.Rounds.{handle_event-reaches, handle_event_total, uses-round_le}

-- The events that reach the key, in the order in which they are handled.
abbrev pub reaching : String → List (Event × Assoc (List Subscription)) → List Event
reaching key [] = []
reaching key ((ev, order) ∷ evs) =
    let later = reaching key evs in if reaches key ev.name then ev ∷ later else later

-- An event whose name holds no "+", with an order of the loop over the map.
abbrev pub IsVisit : Assoc (List Subscription) → Event × Assoc (List Subscription) → Type 0
IsVisit m (ev, order) = (count_char b'+' ev.name ≡ 0) × Perm order m

-- A round changes the channels and nothing else.
handle_event_keeps :
    (ev : Event) (order : Assoc (List Subscription)) (s s' : State)
    → handle_event ev order s ≡ done s'
    → s'.subscriptions ≡ s.subscriptions
handle_event_keeps ev order s s' h =
    let (sent, first, last) =
      >>=-eq-done (send_all ev (subs_of ev.name s ++ wild_targets ev.name order) s.buffers)
        (λ b. done (record s { buffers = b })) (sym (handle_event_targets ev order s) ∙ h) in
    ap (λ (r : State). r.subscriptions) (sym (done-injective last))

copies-lt :
    (n c : ℕ) (ev : Event) (b b' : List (List Event))
    → get_elem? b' c ≡ with_copies n ev (get_elem? b c)
    → length b' ≤ c
    → length b ≤ c
copies-lt n c ev b b' h small = elim (Bool-cases (leb (length b) c)) [
  | inl e ↦ ground arith
  | inr e ↦
      let (waiting, at) = get_elem?_of_lt b c (ground arith) in
      let there : get_elem? b' c ≡ some (waiting ++ replicate n ev) = h ∙ rw at refl in
      absurd (omega (arith, get_elem?-some_lt b' c there))
]

handle_event-IsWellFormed :
    (ev : Event) (order : Assoc (List Subscription)) (s s' : State)
    → handle_event ev order s ≡ done s'
    → IsWellFormed s
    → IsWellFormed s'
handle_event-IsWellFormed ev order s s' h w =
    let same = handle_event_keeps ev order s s' h in
    record {
      own = λ c. rw same (w.own c);
      made = λ c small. rw same (
          w.made c (
            copies-lt (uses c (subs_of ev.name s) + wild_uses c ev.name order) c ev s.buffers
              s'.buffers (handle_event_lem ev order s s' c h) small));
    }

-- In a well-formed state, once the manager has handled the events that wait in its queue, the channel
-- of each subscription holds what it held before, and behind it exactly the events that reach the
-- subscription, each once and in their order, whatever the order in which Go visits the map; the
-- events' names hold no "+".
pub handle_events-reaches :
    (evs : List (Event × Assoc (List Subscription))) (s s' : State) (key : String)
    (subs : List Subscription) (sub : Subscription) (waiting : List Event)
    → IsWellFormed s
    → All (IsVisit s.subscriptions) evs
    → lookup key s.subscriptions ≡ some subs
    → Memᴰ sub subs
    → get_elem? s.buffers sub.channel ≡ some waiting
    → handle_events evs s ≡ done s'
    → get_elem? s'.buffers sub.channel ≡ some (waiting ++ reaching key evs)
unfolding handle_events
handle_events-reaches [] s s' key subs sub waiting w visits at m held h =
    rw (← done-injective h, append-nil waiting) held
handle_events-reaches ((ev, order) ∷ evs) s s' key subs sub waiting w visits at m held h =
    let (mid, first, later) = >>=-eq-done (handle_event ev order s) (handle_events evs) h in
    let (visit, others) = visits in
    let same = handle_event_keeps ev order s mid first in
    let received =
      handle_event-reaches ev order s mid key subs sub w visit.0 visit.1 at m first
      ∙ ap (with_copies (if reaches key ev.name then 1 else 0) ev) held in
    let rest = λ (now : List Event).
      handle_events-reaches evs mid s' key subs sub now
        (handle_event-IsWellFormed ev order s mid first w)
        (subst (λ m'. All (IsVisit m') evs) (sym same) others) (ap (lookup key) same ∙ at) m in
    elim (Bool-cases (reaches key ev.name)) [
      | inl e ↦
          rest (waiting ++ ev ∷ []) (received ∙ rw e refl) later
          ∙ rw e (ap some (append_assoc waiting (ev ∷ []) (reaching key evs)))
      | inr e ↦ rest waiting (received ∙ rw e (ap some (append-nil waiting))) later ∙ rw e refl
    ]

-- Every channel has room for so many more events.
abbrev pub RoomFor : ℕ → State → Type 0
RoomFor n s =
    (c : ℕ) (waiting : List Event)
    → get_elem? s.buffers c ≡ some waiting
    → length waiting + n ≤ subscriber_events_buffered

copies-length :
    (n : ℕ) (ev : Event) (b : List (List Event)) (c : ℕ) (now : List Event)
    → n ≤ 1
    → with_copies n ev (get_elem? b c) ≡ some now
    → (waiting : List Event) × (get_elem? b c ≡ some waiting) × (length now ≤ length waiting + 1)
copies-length n ev b c now few h = elim (Option-cases (get_elem? b c)) [
  | inl e ↦ let h' = rw e at h in absurd (cc)
  | inr (waiting, e) ↦
      let grown = some_inj (rw e at h) in
      (
        waiting,
        e,
        rw (← grown) (omega (arith, length-append waiting (replicate n ev), length-replicate n ev)),
      )
]

handle_event-RoomFor :
    (ev : Event) (order : Assoc (List Subscription)) (n : ℕ) (s s' : State)
    → IsWellFormed s
    → IsVisit s.subscriptions (ev, order)
    → RoomFor (n + 1) s
    → handle_event ev order s ≡ done s'
    → RoomFor n s'
handle_event-RoomFor ev order n s s' w visit room h c now at =
    let sent = uses c (subs_of ev.name s) + wild_uses c ev.name order in
    let few : sent ≤ 1 =
      omega (arith, uses-round_le c ev.name order s w visit.0 visit.1, w.own c) in
    let (waiting, before, grown) =
      copies-length sent ev s.buffers c now few (sym (handle_event_lem ev order s s' c h) ∙ at) in
    omega (arith, room c waiting before)

-- In a well-formed state in which each channel has room for as many events as wait in the queue, the
-- manager handles them all, with no crash, whatever the order in which Go visits the map; the events'
-- names hold no "+".
pub handle_events_total :
    (evs : List (Event × Assoc (List Subscription))) (s : State)
    → IsWellFormed s
    → All (IsVisit s.subscriptions) evs
    → RoomFor (length evs) s
    → (s' : State) × (handle_events evs s ≡ done s')
unfolding handle_events
handle_events_total [] s w visits room = (s, refl)
handle_events_total ((ev, order) ∷ evs) s w visits room =
    let (visit, others) = visits in
    let (mid, first) =
      handle_event_total ev order s w visit.0 visit.1
        (λ c waiting at. omega (arith, room c waiting at)) in
    let same = handle_event_keeps ev order s mid first in
    let (s', later) =
      handle_events_total evs mid (handle_event-IsWellFormed ev order s mid first w)
        (subst (λ m. All (IsVisit m) evs) (sym same) others)
        (handle_event-RoomFor ev order (length evs) s mid w visit
          (λ c waiting at. omega (arith, room c waiting at)) first) in
    (s', rw first later)
