-- ===== src/Automation/Testing/Laws.antt =====
-- When a condition holds, against the rules of docs/Automation.md, and what a payload can make the
-- test do instead of answering.
use aghast.Base.{
  ◌≡◌, refl, sym, ◌∙◌, ◌≢◌, ◌↔◌, ◌⊎◌, inl, inr, String, Bool, true, false, arith, none, some, ◌==◌,
  ◌||◌, nat_comparable, string_comparable, str_lt, eq_iff, lookup, Assoc, Bool-cases, Option-cases,
  done, panicked, >>=-eq-done,
}
use aghast.Base.Int.{ℤ}
use aghast.Runtime.{Runtime, Value, bool, int64, float64, string, bytes}
use aghast.Automation.{Condition}
use aghast.Automation.Testing.{
  read_raw, read_field, read_json, read_response, compare_response, check_payload,
}

-- The operators that the test knows.
abbrev pub is_operator : String → Bool
is_operator is = is == "<" || is == ">" || is == "=" || is == "!="

module _ (rt : Runtime) where
  open rt use {Float, float_zero, float_lt, float_eq, unmarshal}

  -- The field at the condition's type; a field of another type counts as that type's zero.
  abbrev field_bool : Value Float → Bool
  field_bool (bool b) = b
  field_bool _ = false

  abbrev field_float : Value Float → Float
  field_float (float64 x) = x
  field_float _ = float_zero

  abbrev field_string : Value Float → String
  field_string (string s) = s
  field_string _ = ""

  -- When a condition with this operator and value holds of a field.
  pub data Holds (is : String) : Value Float → Value Float → Type 0 where
    same_bool : {b : Bool} {v : Value Float} → field_bool v ≡ b → Holds is (bool b) v
    float_less :
        {x : Float} {v : Value Float}
        → is ≡ "<"
        → float_lt (field_float v) x ≡ true
        → Holds is (float64 x) v
    float_greater :
        {x : Float} {v : Value Float}
        → is ≡ ">"
        → float_lt x (field_float v) ≡ true
        → Holds is (float64 x) v
    float_equal :
        {x : Float} {v : Value Float}
        → is ≡ "="
        → float_eq (field_float v) x ≡ true
        → Holds is (float64 x) v
    float_differs :
        {x : Float} {v : Value Float}
        → is ≡ "!="
        → float_eq (field_float v) x ≡ false
        → Holds is (float64 x) v
    string_less :
        {s : String} {v : Value Float}
        → is ≡ "<"
        → str_lt (field_string v) s ≡ true
        → Holds is (string s) v
    string_greater :
        {s : String} {v : Value Float}
        → is ≡ ">"
        → str_lt s (field_string v) ≡ true
        → Holds is (string s) v
    string_equal :
        {s : String} {v : Value Float} → is ≡ "=" → field_string v ≡ s → Holds is (string s) v
    string_differs :
        {s : String} {v : Value Float} → is ≡ "!=" → field_string v ≢ s → Holds is (string s) v

  -- The variables after reading a field.
  read_field_lem :
      (v : Value Float)
      → ((read_field rt v).as_bool ≡ field_bool v)
        × ((read_field rt v).as_f64 ≡ field_float v)
        × ((read_field rt v).as_str ≡ field_string v)
  unfolding read_field
  read_field_lem (bool b) = (refl, refl, refl)
  read_field_lem _ = (refl, refl, refl)

  compare_sound :
      (is : String) (value v : Value Float)
      → compare_response rt is value (read_field rt v) ≡ done true
      → Holds is value v
  unfolding compare_response
  compare_sound is (bool b) v h = let (e, _, _) = read_field_lem v in same_bool (ground arith)
  compare_sound is (float64 x) v h =
      let (_, e, _) = read_field_lem v in
      elim (Bool-cases (is == "<")) [
        | inl lt ↦ float_less ((eq_iff is "<").0 lt) (ground arith)
        | inr not_lt ↦ elim (Bool-cases (is == ">")) [
          | inl gt ↦ float_greater ((eq_iff is ">").0 gt) (ground arith)
          | inr not_gt ↦ elim (Bool-cases (is == "=")) [
            | inl eq ↦ float_equal ((eq_iff is "=").0 eq) (ground arith)
            | inr not_eq ↦ float_differs ((eq_iff is "!=").0 (ground arith)) (ground arith)
          ]
        ]
      ]
  compare_sound is (string s) v h =
      let (_, _, e) = read_field_lem v in
      elim (Bool-cases (is == "<")) [
        | inl lt ↦ string_less ((eq_iff is "<").0 lt) (ground arith)
        | inr not_lt ↦ elim (Bool-cases (is == ">")) [
          | inl gt ↦ string_greater ((eq_iff is ">").0 gt) (ground arith)
          | inr not_gt ↦ elim (Bool-cases (is == "=")) [
            | inl eq ↦
                string_equal ((eq_iff is "=").0 eq) (ground (arith, eq_iff (field_string v) s))
            | inr not_eq ↦
                string_differs ((eq_iff is "!=").0 (ground arith))
                  (ground (arith, eq_iff (field_string v) s))
          ]
        ]
      ]
  compare_sound is _ v h = ground arith

  compare_complete :
      (is : String) (value v : Value Float)
      → Holds is value v
      → compare_response rt is value (read_field rt v) ≡ done true
  unfolding compare_response
  compare_complete is value v (same_bool {b} e) = let (f, _, _) = read_field_lem v in ground arith
  compare_complete is value v (float_less {x} op e) =
      let (_, f, _) = read_field_lem v in rw (op, f, e) refl
  compare_complete is value v (float_greater {x} op e) =
      let (_, f, _) = read_field_lem v in rw (op, f, e) refl
  compare_complete is value v (float_equal {x} op e) =
      let (_, f, _) = read_field_lem v in rw (op, f, e) refl
  compare_complete is value v (float_differs {x} op e) =
      let (_, f, _) = read_field_lem v in rw (op, f, e) refl
  compare_complete is value v (string_less {s} op e) =
      let (_, _, f) = read_field_lem v in rw (op, f, e) refl
  compare_complete is value v (string_greater {s} op e) =
      let (_, _, f) = read_field_lem v in rw (op, f, e) refl
  compare_complete is value v (string_equal {s} op e) =
      let (_, _, f) = read_field_lem v in rw (op, f) (ground (arith, eq_iff (field_string v) s))
  compare_complete is value v (string_differs {s} op e) =
      let (_, _, f) = read_field_lem v in rw (op, f) (ground (arith, eq_iff (field_string v) s))

  check_json :
      (cond : Condition Float) (text : String) (fields : Assoc (Value Float)) (v : Value Float)
      → cond.key ≢ ""
      → unmarshal text ≡ some fields
      → lookup cond.key fields ≡ some v
      → check_payload rt cond (bytes text)
        ≡ compare_response rt cond.is cond.value (read_field rt v)
  unfolding check_payload read_response read_json
  check_json cond text fields v keyed parsed at = ground (arith, eq_iff cond.key "", parsed, at)

  -- A condition with a whole number as its value is never met, whatever the payload.
  pub int64_never_met :
      (cond : Condition Float) (n : ℤ) (payload : Value Float)
      → cond.value ≡ int64 n
      → check_payload rt cond payload ≢ done true
  unfolding check_payload compare_response
  int64_never_met cond n payload e h =
      let (response, _, last) =
        >>=-eq-done (read_response rt cond payload)
          (λ response. elim response [
            | none ↦ done false
            | some r ↦ compare_response rt cond.is cond.value r
          ])
          h in
      elim (Option-cases response) [
        | inl missing ↦ let last' = rw missing at last in absurd (cc)
        | inr (r, found) ↦ let last' = rw (found, e) at last in absurd (cc)
      ]

  Holds-operator :
      {is : String} {value v : Value Float}
      → Holds is value v
      → ((b : Bool) → value ≢ bool b)
      → is_operator is ≡ true
  Holds-operator (same_bool {b} e) other = absurd (other b refl)
  Holds-operator (float_less op e) other = rw op refl
  Holds-operator (float_greater op e) other = rw op refl
  Holds-operator (float_equal op e) other = rw op refl
  Holds-operator (float_differs op e) other = rw op refl
  Holds-operator (string_less op e) other = rw op refl
  Holds-operator (string_greater op e) other = rw op refl
  Holds-operator (string_equal op e) other = rw op refl
  Holds-operator (string_differs op e) other = rw op refl

  -- A condition with a key, on a JSON object that has the key, is met in these cases and no other:
  -- the value is a Boolean, and the field is the same one, whatever the operator; or the value is a
  -- floating-point number or a text, the operator is "<", ">", "=" or "!=", and it holds of the field
  -- and the value. A field of another type than the value counts as the zero of the value's type. So
  -- a condition whose value is a whole number is never met, nor is one with another operator, such as
  -- "<=" and ">=", unless its value is a Boolean.
  pub check_payload_iff :
      (cond : Condition Float) (text : String) (fields : Assoc (Value Float)) (v : Value Float)
      → cond.key ≢ ""
      → unmarshal text ≡ some fields
      → lookup cond.key fields ≡ some v
      → ((check_payload rt cond (bytes text) ≡ done true) ↔ Holds cond.is cond.value v)
        × ((n : ℤ) → cond.value ≡ int64 n → check_payload rt cond (bytes text) ≢ done true)
        × (is_operator cond.is ≡ false
            → ((b : Bool) → cond.value ≢ bool b)
            → check_payload rt cond (bytes text) ≢ done true)
  check_payload_iff cond text fields v keyed parsed at =
      let same = check_json cond text fields v keyed parsed at in
      let sound = λ (h : check_payload rt cond (bytes text) ≡ done true).
        compare_sound cond.is cond.value v (sym same ∙ h) in
      (
        (sound, λ h. same ∙ compare_complete cond.is cond.value v h),
        λ n whole. int64_never_met cond n (bytes text) whole,
        λ unknown other h.
            let known = Holds-operator (sound h) other in
            let wrong : false ≡ true = sym unknown ∙ known in absurd (cc),
      )

  -- The values that TOML gives to a condition.
  abbrev pub is_scalar : Value Float → Bool
  is_scalar (bool b) = true
  is_scalar (float64 x) = true
  is_scalar (int64 n) = true
  is_scalar (string s) = true
  is_scalar _ = false

  read_raw_panics :
      (value : Value Float) (text : String)
      → is_scalar value ≡ true
      → read_raw rt value (bytes text) ≡ panicked
  unfolding read_raw
  read_raw_panics (bool b) text h = refl
  read_raw_panics (float64 x) text h = refl
  read_raw_panics (int64 n) text h = refl
  read_raw_panics (string s) text h = refl
  read_raw_panics _ text h = absurd (cc)

  -- The test of a message as the broker delivers it ends in a panic if the condition has no key and
  -- its value is a Boolean, a number or a text, and if it has a key and the message is not JSON.
  pub check_payload_panics :
      (cond : Condition Float) (text : String)
      → ((cond.key ≡ "") × (is_scalar cond.value ≡ true))
        ⊎ ((cond.key ≢ "") × (unmarshal text ≡ none))
      → check_payload rt cond (bytes text) ≡ panicked
  unfolding check_payload read_response read_json
  check_payload_panics cond text (inl (keyless, scalar)) =
      ground (arith, eq_iff cond.key "", read_raw_panics cond.value text scalar)
  check_payload_panics cond text (inr (keyed, malformed)) =
      ground (arith, eq_iff cond.key "", malformed)
