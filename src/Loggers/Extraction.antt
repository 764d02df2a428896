-- ===== src/Loggers/Extraction.antt =====
-- What is taken out of a message with a payload of bytes.
use aghast.Base.{
  ◌≡◌, refl, String, Option, none, some, inl, inr, ◌==◌, string_comparable, lookup, Option-cases,
  Bool-cases, if◌then◌else◌, Outcome, done, panicked,
}
use aghast.Runtime.{Value, string, bytes}
use aghast.Mqtt.{GeneralMsg}
use aghast.Loggers.{Floats, field_of, value_of}

module _ {F : Type 0} (floats : Floats F) where
  open floats use {unmarshal}

  -- The field, if the text is a JSON object that has it.
  abbrev pub json_field : (key text : String) → Option (Value F)
  json_field key text = elim (unmarshal text) [ none ↦ none | some json ↦ lookup key json ]

  abbrev pub or_panics : Option (Value F) → Outcome (Option (Value F))
  or_panics none = panicked
  or_panics (some v) = done (some v)

  -- The value that influx and postgres take from a message.
  abbrev pub taken : (key text : String) → Option (Value F)
  taken key text = if key == "" then some (string text) else json_field key text

  -- Neither return is ever reached: the log line before it panics.
  pub field_of-bytes :
      (key text : String) → field_of floats key (bytes text) ≡ or_panics (json_field key text)
  unfolding field_of
  field_of-bytes key text = elim (Option-cases (unmarshal text)) [
    | inl e ↦ rw (json_field, e) refl
    | inr (json, e) ↦ elim (Option-cases (lookup key json)) [
      | inl f ↦ rw (json_field, e, f) refl
      | inr (v, f) ↦ rw (json_field, e, f) refl
    ]
  ]

  pub value_of-bytes :
      (key text : String) → value_of floats key (bytes text) ≡ or_panics (taken key text)
  unfolding value_of
  value_of-bytes key text = elim (Bool-cases (key == "")) [
    | inl e ↦ rw (value_of, taken, e) refl
    | inr e ↦ rw (value_of, taken, e) (field_of-bytes key text)
  ]

-- A message as it comes from the broker, with a payload of bytes.
abbrev pub arrived : {F : Type 0} → GeneralMsg String → GeneralMsg (Value F)
arrived msg = record {
  topic = msg.topic;
  qos = msg.qos;
  retained = msg.retained;
  payload = bytes msg.payload;
}
