-- ===== src/Events/Delivery.antt =====
-- One round of eventManager: which channels the event is written to, and how often.
use mathlib.Core.Path.{fun_ext}
use mathlib.Core.List.{Perm, Permᴰ}
use mathlib.Core.Logic.{∥∥₁_elim}
use native.Mathlib.Nat.{ℕ_set}
use aghast.Base.{
  ℕ, ◌+◌, ◌≤◌, ◌≡◌, refl, sym, ap, ◌∙◌, inl, inr, String, arith, List, [], ◌∷◌, ◌++◌, ◌==◌,
  nat_comparable, string_comparable, eq_iff, length, Assoc, lookup, if◌then◌else◌, get_elem?,
  Bool-cases, Option-cases, with_copies, with_copies_zero, with_copies_add, get_elem?-write, done,
  done-injective, ◌>>=◌, >>=-eq-done, >>=-assoc, ltb,
}
use aghast.Events.{
  State, Event, Subscription, subs_of, send_or_crash, send_all, send_wildcards, wildcard_match,
  handle_event, subscriber_events_buffered,
}
use aghast.Events.Channels.{uses, total_uses, found, uses-append, uses-found-le}

-- How often the wildcard loop writes to the channel.
abbrev pub wild_uses : ℕ → String → Assoc (List Subscription) → ℕ
wild_uses c name [] = 0
wild_uses c name ((key, subs) ∷ m) =
    (if wildcard_match key name then uses c subs else 0) + wild_uses c name m

send_or_crash_lem :
    (ev : Event) (dest : Subscription) (buffers buffers' : List (List Event)) (c : ℕ)
    → send_or_crash ev dest buffers ≡ done buffers'
    → get_elem? buffers' c
      ≡ with_copies (if dest.channel == c then 1 else 0) ev (get_elem? buffers c)
unfolding send_or_crash
send_or_crash_lem ev dest buffers buffers' c h =
    elim (Option-cases (get_elem? buffers dest.channel)) [
      | inl e ↦ let h' = rw (e, send_or_crash) at h in absurd (cc)
      | inr (waiting, e) ↦
          let h' = rw (e, send_or_crash) at h in
          elim (Bool-cases (ltb (length waiting) subscriber_events_buffered)) [
            | inl room ↦
                let h'' = done-injective (rw room at h') in
                sym (ap (λ b. get_elem? b c) h'')
                ∙ get_elem?-write ev dest.channel c waiting buffers e
            | inr full ↦ let h'' = rw full at h' in absurd (cc)
          ]
    ]

send_all_lem :
    (ev : Event) (dests : List Subscription) (buffers buffers' : List (List Event)) (c : ℕ)
    → send_all ev dests buffers ≡ done buffers'
    → get_elem? buffers' c ≡ with_copies (uses c dests) ev (get_elem? buffers c)
unfolding send_all
send_all_lem ev [] buffers buffers' c h =
    rw (done-injective h) (sym (with_copies_zero ev (get_elem? buffers' c)))
send_all_lem ev (dest ∷ dests) buffers buffers' c h =
    let (mid, first, later) = >>=-eq-done (send_or_crash ev dest buffers) (send_all ev dests) h in
    send_all_lem ev dests mid buffers' c later
    ∙ ap (with_copies (uses c dests) ev) (send_or_crash_lem ev dest buffers mid c first)
    ∙ with_copies_add (if dest.channel == c then 1 else 0) (uses c dests) ev (get_elem? buffers c)

wild_uses-Permᴰ :
    (c : ℕ) (name : String) {m m' : Assoc (List Subscription)}
    → Permᴰ m m'
    → wild_uses c name m ≡ wild_uses c name m'
wild_uses-Permᴰ c name Permᴰ.nil = refl
wild_uses-Permᴰ c name (Permᴰ.cons {a} {b} {l₁} {l₂} e p) =
    rw e (omega (arith, wild_uses-Permᴰ c name p))
wild_uses-Permᴰ c name (Permᴰ.swap e f) = rw (e, f) (omega arith)
wild_uses-Permᴰ c name (Permᴰ.trans p q) = wild_uses-Permᴰ c name p ∙ wild_uses-Permᴰ c name q

pub wild_uses-Perm :
    (c : ℕ) (name : String) {m m' : Assoc (List Subscription)}
    → Perm m m'
    → wild_uses c name m ≡ wild_uses c name m'
wild_uses-Perm c name p = ∥∥₁_elim p (ℕ_set _ _) (wild_uses-Permᴰ c name)

pub wild_uses-le :
    (c : ℕ) (name : String) (m : Assoc (List Subscription)) → wild_uses c name m ≤ total_uses c m
wild_uses-le c name [] = omega arith
wild_uses-le c name ((key, subs) ∷ m) = ground (arith, wild_uses-le c name m)

pub wild_uses_alone :
    (c : ℕ) (name key : String) (m : Assoc (List Subscription))
    → total_uses c m ≤ uses c (found key m)
    → wild_uses c name m ≡ (if wildcard_match key name then uses c (found key m) else 0)
unfolding lookup
wild_uses_alone c name key [] h = ground arith
wild_uses_alone c name key ((k, v) ∷ m) h = ground (
  arith,
  eq_iff k key,
  wild_uses-le c name m,
  uses-found-le c key m,
  wild_uses_alone c name key m,
)

-- The wildcard loop sends to these, in this order.
abbrev pub wild_targets : String → Assoc (List Subscription) → List Subscription
wild_targets name [] = []
wild_targets name ((key, subs) ∷ m) =
    (if wildcard_match key name then subs else []) ++ wild_targets name m

pub uses-wild_targets :
    (c : ℕ) (name : String) (m : Assoc (List Subscription))
    → uses c (wild_targets name m) ≡ wild_uses c name m
uses-wild_targets c name [] = refl
uses-wild_targets c name ((key, subs) ∷ m) = elim (Bool-cases (wildcard_match key name)) [
  | inl e ↦ rw (e, uses-append c subs (wild_targets name m), uses-wild_targets c name m)
  | inr e ↦ rw e (omega (arith, uses-wild_targets c name m))
]

send_all-append :
    (ev : Event) (xs ys : List Subscription) (b : List (List Event))
    → send_all ev (xs ++ ys) b ≡ (send_all ev xs b >>= λ b'. send_all ev ys b')
unfolding send_all
send_all-append ev [] ys b = refl
send_all-append ev (x ∷ xs) ys b =
    ap (λ k. send_or_crash ev x b >>= k) (fun_ext (λ b'. send_all-append ev xs ys b'))
    ∙ sym (>>=-assoc (send_or_crash ev x b) (send_all ev xs) (send_all ev ys))

send_wildcards_targets :
    (ev : Event) (m : Assoc (List Subscription)) (b : List (List Event))
    → send_wildcards ev m b ≡ send_all ev (wild_targets ev.name m) b
unfolding send_wildcards send_all
send_wildcards_targets ev [] b = refl
send_wildcards_targets ev ((key, subs) ∷ m) b = elim (Bool-cases (wildcard_match key ev.name)) [
  | inl e ↦ rw e (
      ap (λ k. send_all ev subs b >>= k) (fun_ext (λ b'. send_wildcards_targets ev m b'))
      ∙ sym (send_all-append ev subs (wild_targets ev.name m) b))
  | inr e ↦ rw e (send_wildcards_targets ev m b)
]

-- A round is one run of sends: the exact subscriptions, then those of the wildcard loop.
pub handle_event_targets :
    (ev : Event) (order : Assoc (List Subscription)) (s : State)
    → handle_event ev order s ≡ (
        send_all ev (subs_of ev.name s ++ wild_targets ev.name order) s.buffers >>= λ b.
        done (record s { buffers = b }))
unfolding handle_event
handle_event_targets ev order s =
    let keep = λ (b : List (List Event)). done (record s { buffers = b }) in
    ap (λ k. send_all ev (subs_of ev.name s) s.buffers >>= k)
      (fun_ext (λ b. ap (λ r. r >>= keep) (send_wildcards_targets ev order b)))
    ∙ sym (
        >>=-assoc (send_all ev (subs_of ev.name s) s.buffers)
          (send_all ev (wild_targets ev.name order)) keep)
    ∙ ap (λ r. r >>= keep)
        (sym (send_all-append ev (subs_of ev.name s) (wild_targets ev.name order) s.buffers))

-- What each channel is sent in one round.
pub handle_event_lem :
    (ev : Event) (order : Assoc (List Subscription)) (s s' : State) (c : ℕ)
    → handle_event ev order s ≡ done s'
    → get_elem? s'.buffers c
      ≡ with_copies
          (uses c (subs_of ev.name s) + wild_uses c ev.name order)
          ev
          (get_elem? s.buffers c)
handle_event_lem ev order s s' c h =
    let subs = subs_of ev.name s in
    let targets = subs ++ wild_targets ev.name order in
    let (sent, first, last) =
      >>=-eq-done (send_all ev targets s.buffers) (λ b. done (record s { buffers = b }))
        (sym (handle_event_targets ev order s) ∙ h) in
    let same : get_elem? s'.buffers c ≡ get_elem? sent c =
      ap (λ (r : State). get_elem? r.buffers c) (sym (done-injective last)) in
    let count : uses c targets ≡ uses c subs + wild_uses c ev.name order =
      uses-append c subs (wild_targets ev.name order)
      ∙ ap (λ n. uses c subs + n) (uses-wild_targets c ev.name order) in
    rw (← count) (same ∙ send_all_lem ev targets s.buffers sent c first)
