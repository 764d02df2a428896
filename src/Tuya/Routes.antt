-- ===== src/Tuya/Routes.antt =====
-- Which unit a label stands for.
use aghast.Base.{
  ℕ, suc, ◌+◌, ◌≡◌, refl, ap, ◌∙◌, arith, String, Option, none, some, List, [], ◌∷◌, ◌⊎◌, inl, inr,
  if◌then◌else◌, ◌==◌, string_comparable, Assoc, lookup, lookup-insert, insert, get_elem?,
  Bool-cases, done,
}
use aghast.Runtime.{Value}
use aghast.Mqtt.{Mqtt}
use aghast.Tuya.{
  Lamp, Socket, Config, load_config, Tuya, index_by, lamp_label, socket_label, unit_of,
}

-- The last one with this label.
abbrev pub last_by : {A : Type 0} → (label : A → String) → String → List A → Option A
last_by label name [] = none
last_by label name (a ∷ rest) = elim (last_by label name rest) [
  | some later ↦ some later
  | none ↦ if label a == name then some a else none
]

module _ {A : Type 0} (label : A → String) (name : String) where
  index_by-last :
      (xs : List A) (ix : ℕ) (m : Assoc ℕ)
      → ((last_by label name xs ≡ none) × (lookup name (index_by label ix xs m) ≡ lookup name m))
        ⊎ ((k : ℕ) × (a : A) × (last_by label name xs ≡ some a)
            × (lookup name (index_by label ix xs m) ≡ some (ix + k))
            × (get_elem? xs k ≡ some a))
  unfolding index_by
  index_by-last [] ix m = inl (refl, refl)
  index_by-last (x ∷ xs) ix m = elim (index_by-last xs (ix + 1) (insert (label x) ix m)) [
    | inr (k, a, last, at, there) ↦
        inr (suc k, a, rw (last_by, last) refl, at ∙ ap some (omega arith), there)
    | inl (none_later, kept) ↦ elim (Bool-cases (label x == name)) [
      | inl e ↦ inr (
        0,
        x,
        rw (last_by, none_later, e) refl,
        kept ∙ lookup-insert (label x) name ix m ∙ rw e (ap some (omega arith)),
        refl,
      )
      | inr e ↦
          inl
            (rw (last_by, none_later, e) refl, kept ∙ lookup-insert (label x) name ix m ∙ rw e refl)
    ]
  ]

-- The unit with this label: a lamp before a socket, and the last that has it.
abbrev pub unit_named : String → Config → Option (Lamp ⊎ Socket)
unit_named label conf = elim (last_by lamp_label label conf.lamp) [
  | some l ↦ some (inl l)
  | none ↦ elim (last_by socket_label label conf.socket) [ some s ↦ some (inr s) | none ↦ none ]
]

module _ {F : Type 0} where
  -- The maps are those of the configuration.
  pub record IsLoaded (t : Tuya F) : Type 0 where
    pub lamps : t.lamps_by_label ≡ index_by lamp_label 0 t.conf.lamp []
    pub sockets : t.sockets_by_label ≡ index_by socket_label 0 t.conf.socket []

  pub load_config-IsLoaded :
      (conf : Config) (mq : Mqtt (Value F))
      → (t : Tuya F) × (load_config (some conf) mq ≡ done t) × IsLoaded t × (t.conf ≡ conf)
  unfolding load_config
  load_config-IsLoaded conf mq = (
    record {
      conf = conf;
      lamps_by_label = index_by lamp_label 0 conf.lamp [];
      sockets_by_label = index_by socket_label 0 conf.socket [];
      posts = [];
      mq = mq;
    },
    refl,
    record { lamps = refl; sockets = refl },
    refl,
  )

  abbrev pub Stands : Tuya F → Option (ℕ ⊎ ℕ) → Option (Lamp ⊎ Socket) → Type 0
  Stands t none none = Unit {0}
  Stands t (some (inl k)) (some (inl l)) = get_elem? t.conf.lamp k ≡ some l
  Stands t (some (inr k)) (some (inr s)) = get_elem? t.conf.socket k ≡ some s
  Stands t _ _ = ⊥

  pub unit_of-Stands :
      (label : String) (t : Tuya F)
      → IsLoaded t
      → Stands t (unit_of label t) (unit_named label t.conf)
  unfolding lookup
  unit_of-Stands label t w = elim (index_by-last lamp_label label t.conf.lamp 0 []) [
    | inr (k, l, last, at, there) ↦
        let found : lookup label t.lamps_by_label ≡ some k =
          ap (lookup label) w.lamps ∙ at ∙ ap some (omega arith) in
        rw (unit_of, found, unit_named, last) there
    | inl (no_lamp, kept) ↦
        let absent : lookup label t.lamps_by_label ≡ none = ap (lookup label) w.lamps ∙ kept in
        elim (index_by-last socket_label label t.conf.socket 0 []) [
          | inr (k, s, last, at, there) ↦
              let found : lookup label t.sockets_by_label ≡ some k =
                ap (lookup label) w.sockets ∙ at ∙ ap some (omega arith) in
              rw (unit_of, absent, found, unit_named, no_lamp, last) there
          | inl (no_socket, kept') ↦
              let absent' : lookup label t.sockets_by_label ≡ none =
                ap (lookup label) w.sockets ∙ kept' in
              rw (unit_of, absent, absent', unit_named, no_lamp, no_socket) tt
        ]
  ]
