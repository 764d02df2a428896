-- ===== src/Events/Ids.antt =====
-- GetSubscriberID: a call claims a free slot for its name and leaves all else as it was.
use aghast.Base.{
  ℕ, suc, ◌+◌, ◌≡◌, refl, ◌∙◌, ◌≢◌, ◌↔◌, inl, inr, String, arith, List, [], ◌∷◌, ◌==◌,
  string_comparable, eq_iff, All, get_elem?, set, get_elem?-set_self, get_elem?-set_ne,
  get_elem?-some_lt, none, some, Bool-cases, Option-cases, done, done-injective, fatal,
}
use mathlib.Core.Path.{subst}
use native.Mathlib.Nat.{zero-add}
use aghast.Events.{State, claim_from, slots, get_subscriber_id}

record IsClaim (i k : ℕ) (name : String) (ids ids' : List String) : Type 0 where
  at : ℕ
  index : k ≡ i + at
  free : get_elem? ids at ≡ some ""
  written : ids' ≡ set ids at name

claim_from-IsClaim :
    (i : ℕ) (name : String) (ids : List String) {ids' : List String} {k : ℕ}
    → claim_from i name ids ≡ some (ids', k)
    → IsClaim i k name ids ids'
unfolding claim_from
claim_from-IsClaim i name [] h = cc
claim_from-IsClaim i name (used ∷ rest) h = elim (Bool-cases (used == "")) [
  | inl e ↦ record {
    at = 0;
    index = ground arith;
    free = ground (arith, eq_iff used "");
    written = ground arith;
  }
  | inr e ↦ elim (Option-cases (claim_from (i + 1) name rest)) [
    | inl none_left ↦ ground arith
    | inr ((rest', k'), found) ↦
        let c = claim_from-IsClaim (i + 1) name rest found in
        record { at = suc c.at; index = ground arith; free = c.free; written = ground arith }
  ]
]

claim_from-none :
    (i : ℕ) (name : String) (ids : List String)
    → (claim_from i name ids ≡ none) ↔ All (λ used. used ≢ "") ids
unfolding claim_from
claim_from-none i name [] = ground arith
claim_from-none i name (used ∷ rest) =
    ground (arith, eq_iff used "", claim_from-none (i + 1) name rest)

slots_of_some : (ids : List String) → slots (some ids) ≡ ids
unfolding slots
slots_of_some ids = refl

abbrev Claims : String → State → State → ℕ → Type 0
Claims name s s' id =
    (get_elem? (slots s.sub_ids) id ≡ some "")
    × (get_elem? (slots s'.sub_ids) id ≡ some name)
    × ((j : ℕ) → id ≢ j → get_elem? (slots s'.sub_ids) j ≡ get_elem? (slots s.sub_ids) j)
    × (s'.subscriptions ≡ s.subscriptions)
    × (s'.buffers ≡ s.buffers)

IsClaim-Claims :
    (name : String) (s : State) (ids : List String) (k : ℕ)
    → IsClaim 0 k name (slots s.sub_ids) ids
    → Claims name s (record s { sub_ids = some ids }) k
IsClaim-Claims name s ids k c =
    let same : k ≡ c.at = c.index ∙ zero-add c.at in
    let old = slots s.sub_ids in
    rw (same, slots_of_some, c.written)
      (
        c.free,
        get_elem?-set_self old c.at name (get_elem?-some_lt old c.at c.free),
        λ j ne. get_elem?-set_ne old name ne,
        refl,
        refl,
      )

-- A call that returns has claimed a slot that was free: the slot holds the name, and every other
-- slot, the subscriptions and the channels are as before.
pub get_subscriber_id_claims :
    (name : String) (s s' : State) (id : ℕ)
    → get_subscriber_id name s ≡ done (s', id)
    → (get_elem? (slots s.sub_ids) id ≡ some "")
      × (get_elem? (slots s'.sub_ids) id ≡ some name)
      × ((j : ℕ) → id ≢ j → get_elem? (slots s'.sub_ids) j ≡ get_elem? (slots s.sub_ids) j)
      × (s'.subscriptions ≡ s.subscriptions)
      × (s'.buffers ≡ s.buffers)
unfolding get_subscriber_id
get_subscriber_id_claims name s s' id h =
    elim (Option-cases (claim_from 0 name (slots s.sub_ids))) [
      | inl e ↦ let h' = rw (e, get_subscriber_id) at h in absurd (cc)
      | inr ((ids, k), e) ↦
          let h' = done-injective (rw (e, get_subscriber_id) at h) in
          subst (λ (p : State × ℕ). Claims name s p.0 p.1) h'
            (IsClaim-Claims name s ids k (claim_from-IsClaim 0 name (slots s.sub_ids) e))
    ]

-- Two calls in a row give different numbers, if the first name is not empty.
pub get_subscriber_id_distinct :
    (first second : String) (s s' s'' : State) (i j : ℕ)
    → first ≢ ""
    → get_subscriber_id first s ≡ done (s', i)
    → get_subscriber_id second s' ≡ done (s'', j)
    → i ≢ j
get_subscriber_id_distinct first second s s' s'' i j ne h k e =
    let a = get_subscriber_id_claims first s s' i h in
    let b = get_subscriber_id_claims second s' s'' j k in ne (cc (a.1, b.0))

-- The call ends the program exactly when every slot is taken.
pub get_subscriber_id_exhausted :
    (name : String) (s : State)
    → (get_subscriber_id name s ≡ fatal) ↔ All (λ used. used ≢ "") (slots s.sub_ids)
unfolding get_subscriber_id
get_subscriber_id_exhausted name s = (
  λ h.
      (claim_from-none 0 name (slots s.sub_ids)).0
        (elim (Option-cases (claim_from 0 name (slots s.sub_ids))) [
          | inl e ↦ e
          | inr (r, e) ↦ let h' = rw (e, get_subscriber_id) at h in absurd (cc)
        ]),
  λ a. rw ((claim_from-none 0 name (slots s.sub_ids)).1 a, get_subscriber_id),
)
