-- ===== src/Automation/Load/Loaded.antt =====
-- What LoadConfig makes of a file that it accepts.
use mathlib.Core.List.{Perm}
use aghast.Base.{
  some_inj, String, Bool, true, not, ◌≡◌, ◌≢◌, refl, sym, ap, ◌∙◌, List, [], ◌∷◌, ◌++◌,
  if◌then◌else◌, ◌==◌, string_comparable, eq_iff, Bool-cases, inl, inr, Option, none, some,
  Option-cases, Assoc, lookup_or, insert, All, All-append, done, ◌>>=◌, >>=-eq-done, done-injective,
}
use mathlib.Core.List.{append_assoc, append-nil}
use aghast.Runtime.{Value, nil, as_bool, as_string}
use aghast.Automation.{AutomationT, Action, Condition}
use aghast.Automation.Load.{
  Tree, sort_strings, keys, is_nil, get, load_condition, load_actions, finish, with_condition,
  load_file,
}
use aghast.Automation.Load.Order.{IsSorted, sort-perm, sort-IsSorted, sort-perm_self}

-- The keys of a Go map are distinct.
abbrev pub HasDistinctKeys {ℓ} : {V : Type ℓ} → Assoc V → Type 0
HasDistinctKeys [] = Unit
HasDistinctKeys ((k, v) ∷ m) = All (λ j. k ≢ j) (keys m) × HasDistinctKeys m

keys-insert {ℓ} :
    {V : Type ℓ} (k : String) (v : V) (m : Assoc V)
    → All (λ j. k ≢ j) (keys m)
    → keys (insert k v m) ≡ keys m ++ k ∷ []
unfolding insert
keys-insert k v [] h = refl
keys-insert k v ((j, w) ∷ m) h = elim (Bool-cases (j == k)) [
  | inl e ↦ absurd (h.0 (sym ((eq_iff j k).0 e)))
  | inr e ↦ rw e (ap (λ r. j ∷ r) (keys-insert k v m h.1))
]

-- None of the second list's elements stands in the first.
abbrev Apart : List String → List String → Type 0
Apart xs [] = Unit
Apart xs (y ∷ ys) = All (λ x. y ≢ x) xs × Apart xs ys

Apart-snoc :
    (xs ys : List String) (k : String) → Apart xs ys → All (λ j. k ≢ j) ys → Apart (xs ++ k ∷ []) ys
Apart-snoc xs [] k a h = tt
Apart-snoc xs (y ∷ ys) k (here, a) (ne, h) =
    (All-append (λ x. y ≢ x) xs (k ∷ []) here ((λ e. ne (sym e)), tt), Apart-snoc xs ys k a h)

Apart-nil : (ys : List String) → Apart [] ys
Apart-nil [] = tt
Apart-nil (y ∷ ys) = (tt, Apart-nil ys)

module _ {F : Type 0} where
  keys-load_actions :
      (tables : Assoc (Assoc (Value F))) (acts loaded : Assoc Action)
      → HasDistinctKeys tables
      → Apart (keys acts) (keys tables)
      → load_actions tables acts ≡ done loaded
      → keys loaded ≡ keys acts ++ keys tables
  unfolding load_actions
  keys-load_actions [] acts loaded d a h =
      ap keys (sym (done-injective h)) ∙ sym (append-nil (keys acts))
  keys-load_actions ((k, details) ∷ tables) acts loaded (apart, d) (here, a) h =
      let (topic, _, h') =
        >>=-eq-done (as_string (lookup_or nil "Topic" details))
          (λ topic. as_string (lookup_or nil "Payload" details) >>= λ payload.
            load_actions tables (insert k (record { topic = topic; payload = payload }) acts))
          h in
      let (payload, _, last) =
        >>=-eq-done (as_string (lookup_or nil "Payload" details))
          (λ payload.
            load_actions tables (insert k (record { topic = topic; payload = payload }) acts))
          h' in
      let act : Action = record { topic = topic; payload = payload } in
      let new = keys-insert k act acts here in
      keys-load_actions tables (insert k act acts) loaded d
        (rw new (Apart-snoc (keys acts) (keys tables) k a apart)) last
      ∙ rw new (append_assoc (keys acts) (k ∷ []) (keys tables))

  record IsFinished (file : String) (conf : Tree F) (auto : AutomationT F) : Type 0 where
    tables : Assoc (Assoc (Value F))
    from : conf.actions ≡ some tables
    read : load_actions tables [] ≡ done auto.actions
    sorted : auto.sorted_action_keys ≡ sort_strings (keys auto.actions)
    enabled : auto.enabled ≡ true
    named : auto.conf_filename ≡ file

  finish-IsFinished :
      (name description event_topic file : String) (condition : Option (Condition F))
      (conf : Tree F) (auto : AutomationT F)
      → finish name description event_topic file condition conf ≡ done auto
      → IsFinished file conf auto
  unfolding finish
  finish-IsFinished name description event_topic file condition conf auto h =
      elim (Option-cases conf.actions) [
        | inl e ↦ let h' = rw (e, finish) at h in absurd (cc)
        | inr (tables, e) ↦
            let (actions, read, last) =
              >>=-eq-done (load_actions tables [])
                (λ actions. done (record {
                  name = name;
                  description = description;
                  enabled = true;
                  event_topic = event_topic;
                  condition = condition;
                  actions = actions;
                  sorted_action_keys = sort_strings (keys actions);
                  conf_filename = file;
                }))
                (rw (e, finish) at h) in
            let same = done-injective last in
            rw (← same) (record {
              tables = tables;
              from = e;
              read = read;
              sorted = refl;
              enabled = refl;
              named = refl;
            })
      ]

  with_condition-IsFinished :
      (name description event_topic file : String) (conf : Tree F) (auto : AutomationT F)
      → with_condition name description event_topic file conf ≡ done (some auto)
      → IsFinished file conf auto
  with_condition-IsFinished name description event_topic file conf auto h =
      elim (Bool-cases (is_nil (get "Condition" conf))) [
        | inl plain ↦
            let (a, finished, last) =
              >>=-eq-done (finish name description event_topic file none conf) (λ a. done (some a))
                (rw plain at h) in
            finish-IsFinished name description event_topic file none conf auto
              (finished ∙ ap done (some_inj (done-injective last)))
        | inr tested ↦
            let (loaded, _, h') =
              >>=-eq-done (load_condition conf)
                (λ loaded. elim loaded [
                  | none ↦ done none
                  | some cond ↦ finish name description event_topic file (some cond) conf >>= λ a.
                      done (some a)
                ])
                (rw tested at h) in
            elim (Option-cases loaded) [
              | inl e ↦ let h'' = rw e at h' in absurd (cc)
              | inr (cond, e) ↦
                  let (a, finished, last) =
                    >>=-eq-done (finish name description event_topic file (some cond) conf)
                      (λ a. done (some a)) (rw e at h') in
                  finish-IsFinished name description event_topic file (some cond) conf auto
                    (finished ∙ ap done (some_inj (done-injective last)))
            ]
      ]

  load_file-IsFinished :
      (file : String) (conf : Tree F) (auto : AutomationT F)
      → load_file file conf ≡ done (some auto)
      → IsFinished file conf auto × (as_bool (get "Enabled" conf) ≡ done true)
  unfolding load_file
  load_file-IsFinished file conf auto h =
      let body = λ (name description : String) (enabled : Bool).
        if not enabled
        then done none
        else if is_nil (get "EventTopic" conf)
        then done none
        else (as_string (get "EventTopic" conf) >>= λ event_topic.
            with_condition name description event_topic file conf) in
      let (name, _, h1) =
        >>=-eq-done (as_string (get "Name" conf))
          (λ name. as_string (get "Description" conf) >>= λ description.
            as_bool (get "Enabled" conf) >>= λ enabled. body name description enabled)
          h in
      let (description, _, h2) =
        >>=-eq-done (as_string (get "Description" conf))
          (λ description. as_bool (get "Enabled" conf) >>= λ enabled. body name description enabled)
          h1 in
      let (enabled, read, h3) =
        >>=-eq-done (as_bool (get "Enabled" conf)) (λ enabled. body name description enabled) h2 in
      elim (Bool-cases enabled) [
        | inr e ↦ let h4 = rw e at h3 in absurd (cc)
        | inl e ↦ elim (Bool-cases (is_nil (get "EventTopic" conf))) [
          | inl f ↦ let h4 = rw (e, f) at h3 in absurd (cc)
          | inr f ↦
              let (event_topic, _, last) =
                >>=-eq-done (as_string (get "EventTopic" conf))
                  (λ event_topic. with_condition name description event_topic file conf)
                  (rw (e, f) at h3) in
              (
                with_condition-IsFinished name description event_topic file conf auto last,
                rw e at read,
              )
        ]
      ]

  labels :
      (file : String) (conf : Tree F) (tables : Assoc (Assoc (Value F))) (auto : AutomationT F)
      → conf.actions ≡ some tables
      → HasDistinctKeys tables
      → load_file file conf ≡ done (some auto)
      → auto.sorted_action_keys ≡ sort_strings (keys tables)
  labels file conf tables auto at d h =
      let (f, _) = load_file-IsFinished file conf auto h in
      let same : f.tables ≡ tables = some_inj (sym f.from ∙ at) in
      f.sorted
      ∙ ap sort_strings
          (keys-load_actions tables [] auto.actions d (Apart-nil (keys tables)) (rw same at f.read))

  -- An automation that LoadConfig keeps was enabled in its file and is enabled; its actions run in
  -- ascending order of the labels of the file's Action tables, each once.
  pub load_file_lem :
      (file : String) (conf : Tree F) (tables : Assoc (Assoc (Value F))) (auto : AutomationT F)
      → conf.actions ≡ some tables
      → HasDistinctKeys tables
      → load_file file conf ≡ done (some auto)
      → (as_bool (get "Enabled" conf) ≡ done true)
        × (auto.enabled ≡ true)
        × IsSorted auto.sorted_action_keys
        × Perm auto.sorted_action_keys (keys tables)
  load_file_lem file conf tables auto at d h =
      let (f, enabled) = load_file-IsFinished file conf auto h in
      let sorted = labels file conf tables auto at d h in
      (
        enabled,
        f.enabled,
        rw sorted (sort-IsSorted (keys tables)),
        rw sorted (sort-perm_self (keys tables)),
      )

  -- The order in which Go visits the tables of actions makes no difference to the order in which
  -- the actions run.
  pub load_file_order :
      (file file' : String) (conf conf' : Tree F) (tables tables' : Assoc (Assoc (Value F)))
      (auto auto' : AutomationT F)
      → conf.actions ≡ some tables
      → conf'.actions ≡ some tables'
      → Perm (keys tables) (keys tables')
      → HasDistinctKeys tables
      → HasDistinctKeys tables'
      → load_file file conf ≡ done (some auto)
      → load_file file' conf' ≡ done (some auto')
      → auto.sorted_action_keys ≡ auto'.sorted_action_keys
  load_file_order file file' conf conf' tables tables' auto auto' at at' p d d' h h' =
      labels file conf tables auto at d h
      ∙ sort-perm (keys tables) (keys tables') p
      ∙ sym (labels file' conf' tables' auto' at' d' h')
