-- ===== src/Automation/Load.antt =====
-- LoadConfig of the automations. A file of the directory is its name and what toml.LoadFile makes
-- of it: an error, or a tree that answers Get, with the tables of its actions.
pub mod Order
pub mod Loaded
use Prim.Native.String
use aghast.Base.{
  str_lt, ℕ, zero, suc, ◌+◌, String, Bool, true, false, not, Option, none, some, List, [], ◌∷◌,
  ◌++◌, if◌then◌else◌, Assoc, lookup, lookup_or, insert, map, Outcome, done, ◌>>=◌,
}
use aghast.Runtime.{Value, nil, other, bool, int, int64, float64, string, bytes, as_bool, as_string}
use aghast.Automation.{AutomationT, Action, Condition}

pub record Tree (F : Type 0) : Type 0 where
  pub fields : Assoc (Value F)  -- by their dotted path
  pub actions : Option (Assoc (Assoc (Value F)))  -- none: no table Action

-- sort.Strings.
unfoldable pub insert_sorted : String → List String → List String
insert_sorted k [] = k ∷ []
insert_sorted k (x ∷ xs) = if str_lt x k then x ∷ insert_sorted k xs else k ∷ x ∷ xs

unfoldable pub sort_strings : List String → List String
unfolding insert_sorted
sort_strings [] = []
sort_strings (x ∷ xs) = insert_sorted x (sort_strings xs)

abbrev pub keys {ℓ} : {V : Type ℓ} → Assoc V → List String
keys [] = []
keys ((k, v) ∷ m) = k ∷ keys m

module _ {F : Type 0} where
  abbrev pub is_nil : Value F → Bool
  is_nil nil = true
  is_nil _ = false

  abbrev pub get : String → Tree F → Value F
  get path conf = lookup_or nil path conf.fields

  -- A path that may be missing.
  abbrev pub optional_string : String → Tree F → Outcome String
  optional_string path conf = if is_nil (get path conf) then done "" else as_string (get path conf)

  -- none: the automation is skipped, for want of an Is clause.
  unfoldable pub load_condition : Tree F → Outcome (Option (Condition F))
  load_condition conf = do
    query_topic ← optional_string "Condition.QueryTopic" conf
    reply_topic ← optional_string "Condition.ReplyTopic" conf
    key ← optional_string "Condition.Key" conf
    payload ← optional_string "Condition.Payload" conf
    if is_nil (get "Condition.Is" conf)
        then done none
        else (as_string (get "Condition.Is" conf) >>= λ is. done (
            some (record {
              query_topic = query_topic;
              reply_topic = reply_topic;
              payload = payload;
              key = key;
              is = is;
              value = get "Condition.Value" conf;
            })))

  -- The loop over the tables of actions.
  unfoldable pub load_actions : Assoc (Assoc (Value F)) → Assoc Action → Outcome (Assoc Action)
  load_actions [] acts = done acts
  load_actions ((order, details) ∷ rest) acts = do
    topic ← as_string (lookup_or nil "Topic" details)
    payload ← as_string (lookup_or nil "Payload" details)
    load_actions rest (insert order (record { topic = topic; payload = payload }) acts)

  -- The rest of the loop's body, once the condition is known.
  unfoldable pub finish :
      (name description event_topic file : String)
      → Option (Condition F)
      → Tree F
      → Outcome (AutomationT F)
  unfolding load_actions sort_strings
  finish name description event_topic file condition conf = do
    tables ← elim conf.actions [ none ↦ Outcome.panicked | some tables ↦ done tables ]
    actions ← load_actions tables []
    done (record {
      name = name;
      description = description;
      enabled = true;
      event_topic = event_topic;
      condition = condition;
      actions = actions;
      sorted_action_keys = sort_strings (keys actions);
      conf_filename = file;
    })

  -- What follows the test of EventTopic.
  abbrev pub with_condition :
      (name description event_topic file : String) → Tree F → Outcome (Option (AutomationT F))
  with_condition name description event_topic file conf =
      if is_nil (get "Condition" conf)
      then (finish name description event_topic file none conf >>= λ a. done (some a))
      else (load_condition conf >>= λ loaded. elim loaded [
        | none ↦ done none
        | some cond ↦
            finish name description event_topic file (some cond) conf >>= λ a. done (some a)
      ])

  -- The body of the loop over the files; none is `continue`.
  unfoldable pub load_file : String → Tree F → Outcome (Option (AutomationT F))
  unfolding load_condition finish
  load_file file conf = do
    name ← as_string (get "Name" conf)
    description ← as_string (get "Description" conf)
    enabled ← as_bool (get "Enabled" conf)
    if not enabled
        then done none
        else if is_nil (get "EventTopic" conf)
        then done none
        else (as_string (get "EventTopic" conf) >>= λ event_topic.
            with_condition name description event_topic file conf)

  abbrev pub add : List (AutomationT F) → Option (AutomationT F) → List (AutomationT F)
  add autos none = autos
  add autos (some a) = autos ++ a ∷ []

  -- The Boolean is false where LoadConfig returns an error.
  unfoldable pub load_files :
      List (String × Option (Tree F)) → List (AutomationT F) → Outcome (List (AutomationT F) × Bool)
  unfolding load_file
  load_files [] autos = done (autos, true)
  load_files ((file, none) ∷ rest) autos = done (autos, false)
  load_files ((file, some conf) ∷ rest) autos = do
    loaded ← load_file file conf
    load_files rest (add autos loaded)

  -- automationsByName, from index `ix` on.
  unfoldable pub index_names : ℕ → List (AutomationT F) → Assoc ℕ → Assoc ℕ
  index_names ix [] by_name = by_name
  index_names ix (au ∷ autos) by_name = index_names (ix + 1) autos (insert au.name ix by_name)
