-- ===== src/Events/Rounds.antt =====
-- A whole round of eventManager: every subscription that the event reaches gets it once, and a
-- round with room in the channels comes to its end.
use mathlib.Core.List.{Memᴰ, Perm}
use aghast.Base.{
  ℕ, ◌+◌, ◌≤◌, ◌<◌, ◌≡◌, refl, ap, ◌∙◌, inl, inr, String, true, false, arith, List, [], ◌∷◌, ◌++◌,
  ◌==◌, nat_comparable, string_comparable, eq_iff, length, length-append, Assoc, lookup,
  if◌then◌else◌, get_elem?, set, get_elem?-set_self, get_elem?-set_ne, get_elem?-some_lt,
  get_elem?_of_lt, some, Bool-cases, with_copies, done, ltb, count_char,
}
use aghast.Events.{
  State, Event, Subscription, subs_of, send_or_crash, send_all, wildcard_match, handle_event,
  reaches, subscriber_events_buffered,
}
use aghast.Events.Channels.{
  uses, total_uses, found, IsWellFormed, uses-append, uses-found-le, uses-found_two, uses-pos,
}
use aghast.Events.Names.{wildcard_match_iff}
use aghast.Events.Delivery.{
  wild_uses, wild_targets, wild_uses-Perm, wild_uses-le, wild_uses_alone, uses-wild_targets,
  handle_event_targets, handle_event_lem,
}

found_at :
    (key : String) (m : Assoc (List Subscription)) {subs : List Subscription}
    → lookup key m ≡ some subs
    → found key m ≡ subs
found_at key m h = ground arith

uses-exact :
    (c : ℕ) (key name : String) (m : Assoc (List Subscription))
    → total_uses c m ≤ uses c (found key m)
    → uses c (found name m) ≡ (if key == name then uses c (found key m) else 0)
uses-exact c key name m h = elim (Bool-cases (key == name)) [
  | inl e ↦ rw (e, (eq_iff key name).0 e) refl
  | inr e ↦ rw e (omega (arith, uses-found_two c key name m (λ f. cc ((eq_iff key name).1 f))))
]

not_both :
    (key name : String)
    → count_char b'+' name ≡ 0
    → key == name ≡ true
    → wildcard_match key name ≡ false
not_both key name plain e = elim (Bool-cases (wildcard_match key name)) [
  | inl w ↦
      let same = (eq_iff key name).0 e in
      absurd (omega (arith, ((wildcard_match_iff key name).0 w).0, ap (count_char b'+') same))
  | inr w ↦ w
]

-- In a well-formed state, a round that returns for an event whose name holds no "+" has written the
-- event once to the channel of each subscription that it reaches, and not at all to the others',
-- whatever the order in which Go visits the map.
pub handle_event-reaches :
    (ev : Event) (order : Assoc (List Subscription)) (s s' : State) (key : String)
    (subs : List Subscription) (sub : Subscription)
    → IsWellFormed s
    → count_char b'+' ev.name ≡ 0
    → Perm order s.subscriptions
    → lookup key s.subscriptions ≡ some subs
    → Memᴰ sub subs
    → handle_event ev order s ≡ done s'
    → get_elem? s'.buffers sub.channel
      ≡ with_copies (if reaches key ev.name then 1 else 0) ev (get_elem? s.buffers sub.channel)
handle_event-reaches ev order s s' key subs sub w plain p at m h =
    let c = sub.channel in
    let here : uses c (found key s.subscriptions) ≡ uses c subs =
      ap (uses c) (found_at key s.subscriptions at) in
    let alone : total_uses c s.subscriptions ≤ uses c (found key s.subscriptions) =
      omega (arith, here, uses-pos subs m, w.own c) in
    let one : uses c (found key s.subscriptions) ≡ 1 =
      omega (arith, here, uses-pos subs m, w.own c, uses-found-le c key s.subscriptions) in
    let wild : wild_uses c ev.name order ≡ (if wildcard_match key ev.name then 1 else 0) =
      wild_uses-Perm c ev.name p ∙ wild_uses_alone c ev.name key s.subscriptions alone ∙ rw one in
    let exact : uses c (subs_of ev.name s) ≡ (if key == ev.name then 1 else 0) =
      uses-exact c key ev.name s.subscriptions alone ∙ rw one in
    let sum : uses c (subs_of ev.name s) + wild_uses c ev.name order
        ≡ (if reaches key ev.name then 1 else 0) =
      ground (arith, exact, wild, not_both key ev.name plain) in
    handle_event_lem ev order s s' c h ∙ rw sum

-- Every channel that is written to exists, and has room for what is written.
HasRoom : List Subscription → List (List Event) → Type 0
HasRoom dests buffers =
    (c : ℕ)
    → 0 < uses c dests
    → (waiting : List Event) × (get_elem? buffers c ≡ some waiting)
      × (length waiting + uses c dests ≤ subscriber_events_buffered)

send_or_crash_room :
    (ev : Event) (dest : Subscription) (dests : List Subscription) (b : List (List Event))
    → HasRoom (dest ∷ dests) b
    → (b' : List (List Event)) × (send_or_crash ev dest b ≡ done b') × HasRoom dests b'
unfolding send_or_crash HasRoom
send_or_crash_room ev dest dests b room =
    let ch = dest.channel in
    let (waiting, at, fits) = room ch (ground arith) in
    let b' = set b ch (waiting ++ ev ∷ []) in
    (
      b',
      rw (at, send_or_crash) (ground arith),
      λ c used. elim (Bool-cases (ch == c)) [
        | inl e ↦
            let same : ch ≡ c = ground arith in
            (
              waiting ++ ev ∷ [],
              rw (← same)
                  (get_elem?-set_self b ch (waiting ++ ev ∷ []) (get_elem?-some_lt b ch at)),
              ground (arith, length-append waiting (ev ∷ [])),
            )
        | inr e ↦
            let (w, at', fits') = room c (ground arith) in
            (w, get_elem?-set_ne b (waiting ++ ev ∷ []) (λ f. ground arith) ∙ at', ground arith)
      ],
    )

send_all_total :
    (ev : Event) (dests : List Subscription) (b : List (List Event))
    → HasRoom dests b
    → (b' : List (List Event)) × (send_all ev dests b ≡ done b')
unfolding send_all
send_all_total ev [] b room = (b, refl)
send_all_total ev (dest ∷ dests) b room =
    let (mid, first, room') = send_or_crash_room ev dest dests b room in
    let (b', later) = send_all_total ev dests mid room' in (b', rw first later)

pub uses-round_le :
    (c : ℕ) (name : String) (order : Assoc (List Subscription)) (s : State)
    → IsWellFormed s
    → count_char b'+' name ≡ 0
    → Perm order s.subscriptions
    → uses c (subs_of name s) + wild_uses c name order ≤ total_uses c s.subscriptions
uses-round_le c name order s w plain p =
    let m = s.subscriptions in
    let le = wild_uses-le c name m in
    let exact_le = uses-found-le c name m in
    let same = wild_uses-Perm c name p in
    elim (Bool-cases (ltb 0 (uses c (found name m)))) [
      | inl some_use ↦
          let alone : total_uses c m ≤ uses c (found name m) = ground (arith, w.own c) in
          let none_wild = wild_uses_alone c name name m alone in
          ground (arith, same, none_wild, exact_le, not_both name name plain, eq_iff name name)
      | inr no_use ↦ ground (arith, same, le)
    ]

abbrev pub EachHasRoom : State → Type 0
EachHasRoom s =
    (c : ℕ) (waiting : List Event)
    → get_elem? s.buffers c ≡ some waiting
    → length waiting < subscriber_events_buffered

round-HasRoom :
    (name : String) (order : Assoc (List Subscription)) (s : State)
    → IsWellFormed s
    → count_char b'+' name ≡ 0
    → Perm order s.subscriptions
    → EachHasRoom s
    → HasRoom (subs_of name s ++ wild_targets name order) s.buffers
unfolding HasRoom
round-HasRoom name order s w plain p room c used =
    let targets = subs_of name s ++ wild_targets name order in
    let few : uses c targets ≤ total_uses c s.subscriptions = omega (
      arith,
      uses-append c (subs_of name s) (wild_targets name order),
      uses-wild_targets c name order,
      uses-round_le c name order s w plain p,
    ) in
    let made : c < length s.buffers = ground (arith, w.made c) in
    let (waiting, at) = get_elem?_of_lt s.buffers c made in
    (waiting, at, omega (arith, room c waiting at, w.own c))

-- In a well-formed state in which each channel has room for one more event, a round for an event
-- whose name holds no "+" returns, with no crash, whatever the order in which Go visits the map.
pub handle_event_total :
    (ev : Event) (order : Assoc (List Subscription)) (s : State)
    → IsWellFormed s
    → count_char b'+' ev.name ≡ 0
    → Perm order s.subscriptions
    → EachHasRoom s
    → (s' : State) × (handle_event ev order s ≡ done s')
handle_event_total ev order s w plain p room =
    let targets = subs_of ev.name s ++ wild_targets ev.name order in
    let (b, sent) =
      send_all_total ev targets s.buffers (round-HasRoom ev.name order s w plain p room) in
    (record s { buffers = b }, handle_event_targets ev order s ∙ rw sent)
