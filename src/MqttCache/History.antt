-- ===== src/MqttCache/History.antt =====
-- What a request is answered after a history of messages, in terms of that history.
use aghast.Base.{
  drop_prefix, ◌>>=◌, ℕ, ◌≡◌, refl, ap, ◌∙◌, String, Option, none, some, List, [], ◌∷◌,
  if◌then◌else◌, ◌==◌, string_comparable, eq_iff, Assoc, lookup, lookup_or-some, lookup_or-none,
  lookup-insert, insert, Bool-cases, Option-cases, inl, inr, Outcome, done,
}
use aghast.Base.Int.{pos}
use aghast.Runtime.{Value, as_bytes}
use aghast.Mqtt.{Mqtt, send_third_party, GeneralMsg}
use aghast.MqttCache.{
  respond, reply_to, get_topic_prefix, Setting, CacheT, no_cache, fresh, fill_map, store, expired,
  answer,
}

-- The last table with this topic.
abbrev pub setting_of : String → List Setting → Option Setting
setting_of t [] = none
setting_of t (c ∷ cs) = elim (setting_of t cs) [
  | none ↦ if c.topic == t then some c else none
  | some later ↦ some later
]

-- The messages in the order of their arrival, each with its time.
abbrev pub Arrivals : Type 0 → Type 0
Arrivals F = List (GeneralMsg (Value F) × ℕ)

module _ {F : Type 0} where
  abbrev pub store_all : Arrivals F → Assoc (CacheT F) → Assoc (CacheT F)
  store_all [] m = m
  store_all ((msg, at) ∷ h) m = store_all h (store msg at m)

  abbrev pub latest : String → Arrivals F → Option (GeneralMsg (Value F) × ℕ)
  latest t [] = none
  latest t ((msg, at) ∷ h) = elim (latest t h) [
    | none ↦ if msg.topic == t then some (msg, at) else none
    | some later ↦ some later
  ]

  -- The specification.
  abbrev pub promised :
      Option Setting → Option (GeneralMsg (Value F) × ℕ) → (now : ℕ) → Outcome String
  promised none none now = done "{\"Error\": \"Not configured in mqttcache\"}"
  promised (some c) none now = done "{\"Error\": \"No data collected yet\"}"
  promised none (some (msg, at)) now =
      if expired now at (pos 0) then done "{\"Error\": \"Data expired\"}" else as_bytes msg.payload
  promised (some c) (some (msg, at)) now =
      if expired now at c.retain_secs
      then done "{\"Error\": \"Data expired\"}"
      else as_bytes msg.payload

  abbrev held : Option (CacheT F) → Option (GeneralMsg (Value F) × ℕ) → Option (CacheT F)
  held cache none = cache
  held none (some (msg, at)) =
      some (record no_cache { last_message = msg; last_msg_time = some at })
  held (some cache) (some (msg, at)) =
      some (record cache { last_message = msg; last_msg_time = some at })

  lookup-store :
      (t : String) (msg : GeneralMsg (Value F)) (at : ℕ) (m : Assoc (CacheT F))
      → lookup t (store msg at m)
        ≡ (if msg.topic == t then held (lookup t m) (some (msg, at)) else lookup t m)
  unfolding store
  lookup-store t msg at m = elim (Bool-cases (msg.topic == t)) [
    | inr e ↦ rw (lookup-insert, e) refl
    | inl e ↦
        let same = (eq_iff msg.topic t).0 e in
        elim (Option-cases (lookup t m)) [
          | inl none_there ↦
              rw (lookup-insert, e, none_there, same, lookup_or-none no_cache t m none_there) refl
          | inr (cache, there) ↦
              rw (lookup-insert, e, there, same, lookup_or-some no_cache cache t m there) refl
        ]
  ]

  held_twice :
      (cache : Option (CacheT F)) (x y : GeneralMsg (Value F) × ℕ)
      → held (held cache (some x)) (some y) ≡ held cache (some y)
  held_twice none x y = refl
  held_twice (some cache) x y = refl

  lookup-store_all :
      (t : String) (h : Arrivals F) (m : Assoc (CacheT F))
      → lookup t (store_all h m) ≡ held (lookup t m) (latest t h)
  lookup-store_all t [] m = refl
  lookup-store_all t ((msg, at) ∷ h) m =
      lookup-store_all t h (store msg at m)
      ∙ ap (λ c. held c (latest t h)) (lookup-store t msg at m)
      ∙ (elim (Option-cases (latest t h)) [
        | inl e ↦ elim (Bool-cases (msg.topic == t)) [
          | inl f ↦ rw (e, f) refl
          | inr f ↦ rw (e, f) refl
        ]
        | inr (later, e) ↦ elim (Bool-cases (msg.topic == t)) [
          | inl f ↦ rw (e, f) (held_twice (lookup t m) (msg, at) later)
          | inr f ↦ rw (e, f) refl
        ]
      ])

  abbrev loaded : Option (CacheT F) → Option Setting → Option (CacheT F)
  loaded cache none = cache
  loaded cache (some c) = some (fresh c)

  lookup-fill_map :
      (t : String) (cs : List Setting) (m : Assoc (CacheT F))
      → lookup t (fill_map cs m) ≡ loaded (lookup t m) (setting_of t cs)
  unfolding fill_map
  lookup-fill_map t [] m = refl
  lookup-fill_map t (c ∷ cs) m =
      lookup-fill_map t cs (insert c.topic (fresh c) m)
      ∙ ap (λ x. loaded x (setting_of t cs)) (lookup-insert c.topic t (fresh c) m)
      ∙ (elim (Option-cases (setting_of t cs)) [
        | inr (later, e) ↦ rw e refl
        | inl e ↦ elim (Bool-cases (c.topic == t)) [
          | inl f ↦ rw (e, f) refl
          | inr f ↦ rw (e, f) refl
        ]
      ])

  answer_of : Option (CacheT F) → (now : ℕ) → Outcome String
  answer_of cache now = elim cache [
    | none ↦ done "{\"Error\": \"Not configured in mqttcache\"}"
    | some cache ↦ elim cache.last_msg_time [
      | none ↦ done "{\"Error\": \"No data collected yet\"}"
      | some at ↦
          if expired now at cache.retain_secs
          then done "{\"Error\": \"Data expired\"}"
          else as_bytes cache.last_message.payload
    ]
  ]

  answer_of-held :
      (c : Option Setting) (last : Option (GeneralMsg (Value F) × ℕ)) (now : ℕ)
      → answer_of (held (loaded none c) last) now ≡ promised c last now
  unfolding answer_of
  answer_of-held none none now = refl
  answer_of-held none (some x) now = refl
  answer_of-held (some c) none now = refl
  answer_of-held (some c) (some x) now = refl

  answer-history :
      (cs : List Setting) (h : Arrivals F) (t : String) (now : ℕ)
      → answer t now (store_all h (fill_map cs [])) ≡ promised (setting_of t cs) (latest t h) now
  unfolding answer answer_of lookup
  answer-history cs h t now =
      let found : lookup t (store_all h (fill_map cs []))
          ≡ held (loaded none (setting_of t cs)) (latest t h) =
        lookup-store_all t h (fill_map cs [])
        ∙ ap (λ c. held c (latest t h)) (lookup-fill_map t cs []) in
      let way : answer t now (store_all h (fill_map cs []))
          ≡ answer_of (lookup t (store_all h (fill_map cs []))) now =
        refl in
      way ∙ ap (λ c. answer_of c now) found ∙ answer_of-held (setting_of t cs) (latest t h) now

  -- A request for a topic, after any history of messages, is answered on the cache's topic with what
  -- the configuration and the latest message of that topic determine: an error for a topic that is
  -- neither configured nor heard of, an error while no message of a configured topic has come, an
  -- error once the latest is older than the topic's retention (none for a topic that is heard of but
  -- not configured), and otherwise the latest payload, if it is of bytes.
  pub respond-history :
      (cs : List Setting) (h : Arrivals F) (t : String) (now : ℕ) (req : GeneralMsg (Value F))
      (mq : Mqtt (Value F))
      → drop_prefix req.topic get_topic_prefix ≡ some t
      → respond req now (store_all h (fill_map cs [])) mq ≡ (
          promised (setting_of t cs) (latest t h) now >>= λ payload.
          send_third_party (reply_to t payload) mq)
  unfolding respond
  respond-history cs h t now req mq asked =
      rw (respond, asked)
        (ap (λ o. o >>= λ payload. send_third_party (reply_to t payload) mq)
          (answer-history cs h t now))
