-- ===== src/Runtime.antt =====
-- What the integrations take from Go and its packages: dynamic values (`interface{}`) with the type
-- assertions on them, floating-point numbers and JSON. There are no floating-point numbers here, so
-- their type and tests are fields of `Runtime`, with the reading and writing of JSON.
use aghast.Base.{String, Bool, Option, List, Assoc, Outcome, done, panicked}
use aghast.Base.Int.{ℤ}

-- `bytes` is Go's []uint8, as a text; `other` is a value of a type that the program never tests for
-- (a list or table of JSON or TOML).
pub data Value (F : Type 0) : Type 0 where
  nil other : Value F
  bool : Bool → Value F
  int : ℤ → Value F
  int64 : ℤ → Value F
  float64 : F → Value F
  string : String → Value F
  bytes : String → Value F

pub record Runtime : Type 1 where
  pub Float : Type 0
  pub float_zero : Float
  pub float_lt : Float → Float → Bool
  pub float_eq : Float → Float → Bool
  -- json.Unmarshal into a map; none is an error.
  pub unmarshal : String → Option (Assoc (Value Float))
  -- json.Marshal of the list of automations: name, description, enabled.
  pub marshal_list : List (String × String × Bool) → String

module _ {F : Type 0} where
  -- The type assertions `v.(bool)` and so on: a value of another type panics.
  abbrev pub as_bool : Value F → Outcome Bool
  as_bool (bool b) = done b
  as_bool _ = panicked

  abbrev pub as_int64 : Value F → Outcome ℤ
  as_int64 (int64 n) = done n
  as_int64 _ = panicked

  abbrev pub as_float64 : Value F → Outcome F
  as_float64 (float64 x) = done x
  as_float64 _ = panicked

  abbrev pub as_string : Value F → Outcome String
  as_string (string s) = done s
  as_string _ = panicked

  abbrev pub as_bytes : Value F → Outcome String
  as_bytes (bytes s) = done s
  as_bytes _ = panicked
