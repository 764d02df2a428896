-- ===== src/Loggers/Lifetime.antt =====
-- The subscriptions of the loggers: Stop takes away what Start has added.
use mathlib.Core.HLevel.{⊥_prop}
use mathlib.Core.Logic.{∥∥₁_elim}
use mathlib.Core.List.{
  Mem, Memᴰ, Perm, perm-cons, mem-cons_self, append_assoc, perm_append_singleton,
}
use mathlib.Core.List.Perm
use mathlib.Core.Path.{subst}
use aghast.Base.{
  ℕ, zero, suc, ◌≡◌, refl, ◌≢◌, inl, inr, String, List, [], ◌∷◌, ◌++◌, if◌then◌else◌, ◌==◌,
  string_comparable, eq_iff, eq_refl, lookup_or, Bool-cases, Option-cases, done, map, get_elem?,
  some, none, Bool, true, false, ap, ◌∙◌, sym,
}
use aghast.Mqtt.{Mqtt, subscribe_to_topic, index_from}
use aghast.Mqtt.Chans.{index_from-some, index_from_mem}
use aghast.Mqtt.Subscribers.{unsubscribe_removes, subs-subscribe}
use aghast.Loggers.{Goroutine, start_each, stop_each}

abbrev pub chans_of : {S : Type 0} → String → List (Goroutine S) → List ℕ
chans_of t [] = []
chans_of t (g ∷ gs) = if g.topic == t then g.ch ∷ chans_of t gs else chans_of t gs

abbrev pub subs_of : {P : Type 0} → String → Mqtt P → List ℕ
subs_of t mq = lookup_or [] t mq.subs

mem_at : (ch : ℕ) (xs : List ℕ) (j : ℕ) → get_elem? xs j ≡ some ch → Memᴰ ch xs
mem_at ch [] j h = absurd (cc)
mem_at ch (x ∷ xs) zero h = Memᴰ.head (cc)
mem_at ch (x ∷ xs) (suc j) h = Memᴰ.tail (mem_at ch xs j h)

-- Channels are numbers, so the place of a member can be found.
found_mem : (ch : ℕ) (xs : List ℕ) → Mem ch xs → Memᴰ ch xs
found_mem ch xs mem = elim (Option-cases (index_from 0 ch xs)) [
  | inl e ↦ absurd (
      ∥∥₁_elim mem ⊥_prop
        λ m. let (k, at) = index_from_mem 0 ch xs m in let wrong : none ≡ some k = rw e at at in cc)
  | inr (k, e) ↦ let (j, same, at) = index_from-some 0 ch xs k e in mem_at ch xs j at
]

-- A channel at the end of the one list, or at the front of the other.
step_perm :
    (b : Bool) (ch : ℕ) (others at_topic at_t now last : List ℕ)
    → now ≡ (if b then at_topic ++ ch ∷ [] else at_t)
    → (b ≡ true → at_topic ≡ at_t)
    → Perm last (others ++ now)
    → Perm last ((if b then ch ∷ others else others) ++ at_t)
step_perm true ch others at_topic at_t now last e same p =
    let whole : now ≡ at_t ++ ch ∷ [] = e ∙ ap (λ x. x ++ ch ∷ []) (same refl) in
    let moved : others ++ now ≡ (others ++ at_t) ++ ch ∷ [] =
      ap (λ x. others ++ x) whole ∙ sym (append_assoc others at_t (ch ∷ [])) in
    Perm.trans p (rw moved (perm_append_singleton ch (others ++ at_t)))
step_perm false ch others at_topic at_t now last e same p = rw e at p

module _ {S P : Type 0} where
  pub start_each-subs :
      (tables : List (String × S)) (mq : Mqtt P) (t : String)
      → Perm
          (subs_of t (start_each tables mq).1)
          (chans_of t (start_each tables mq).0 ++ subs_of t mq)
  unfolding start_each
  start_each-subs [] mq t = Perm.refl (subs_of t mq)
  start_each-subs ((topic, own) ∷ tables) mq t =
      let subscribed = (subscribe_to_topic topic mq).0 in
      step_perm (topic == t) (subscribe_to_topic topic mq).1
        (chans_of t (start_each tables subscribed).0) (subs_of topic mq) (subs_of t mq)
        (subs_of t subscribed) (subs_of t (start_each tables subscribed).1)
        (subs-subscribe topic t mq) (λ e. ap (λ x. subs_of x mq) ((eq_iff topic t).0 e))
        (start_each-subs tables subscribed t)

  -- Goroutines whose channels are subscribed besides those of `before`.
  abbrev Holds : List (Goroutine S) → Mqtt P → (String → List ℕ) → Type 0
  Holds gs mq before = (t : String) → Perm (subs_of t mq) (chans_of t gs ++ before t)

  first_held :
      (g : Goroutine S) (gs : List (Goroutine S)) (mq : Mqtt P) (before : String → List ℕ)
      → Holds (g ∷ gs) mq before
      → Perm (subs_of g.topic mq) (g.ch ∷ (chans_of g.topic gs ++ before g.topic))
  first_held g gs mq before h = rw (eq_refl g.topic) at (h g.topic)

  others_held :
      (g : Goroutine S) (gs : List (Goroutine S)) (mq left : Mqtt P) (before : String → List ℕ)
      → Holds (g ∷ gs) mq before
      → Perm (g.ch ∷ subs_of g.topic left) (subs_of g.topic mq)
      → ((t : String) → g.topic ≢ t → subs_of t left ≡ subs_of t mq)
      → Holds gs left before
  others_held g gs mq left before h fewer kept t = elim (Bool-cases (g.topic == t)) [
    | inl e ↦
        subst (λ x. Perm (subs_of x left) (chans_of x gs ++ before x)) ((eq_iff g.topic t).0 e)
          ((perm-cons g.ch).0 (Perm.trans fewer (first_held g gs mq before h)))
    | inr e ↦ let same = kept t (λ f. cc ((eq_iff g.topic t).1 f)) in rw same (rw e at (h t))
  ]

  stop_each-subs :
      (last_work : S → S) (gs : List (Goroutine S)) (mq : Mqtt P) (before : String → List ℕ)
      → Holds gs mq before
      → (left : Mqtt P) × (stop_each last_work gs mq ≡ done (map (λ g. last_work g.own) gs, left))
        × ((t : String) → Perm (subs_of t left) (before t))
  unfolding stop_each
  stop_each-subs last_work [] mq before h = (mq, refl, h)
  stop_each-subs last_work (g ∷ gs) mq before h =
      let there = (Perm.mem_iff (first_held g gs mq before h)).1 mem-cons_self in
      let (left, returned, fewer, kept) =
        unsubscribe_removes g.topic g.ch mq (found_mem g.ch (subs_of g.topic mq) there) in
      let (last, others, restored) =
        stop_each-subs last_work gs left before (others_held g gs mq left before h fewer kept) in
      (last, rw (returned, others) refl, restored)

  -- When a logger's goroutines are started and later stopped, while nothing else subscribes, Stop
  -- returns: each goroutine has done its last work, and every topic has the channels that it had
  -- before, each as often.
  pub stop_each-start_each :
      (last_work : S → S) (tables : List (String × S)) (mq : Mqtt P)
      → let (gs, started) = start_each tables mq in
        (left : Mqtt P) × (stop_each last_work gs started
          ≡ done (map (λ g. last_work g.own) gs, left))
        × ((t : String) → Perm (lookup_or [] t left.subs) (lookup_or [] t mq.subs))
  stop_each-start_each last_work tables mq =
      stop_each-subs last_work (start_each tables mq).0 (start_each tables mq).1 (λ t. subs_of t mq)
        (start_each-subs tables mq)
