-- ===== src/Influx/Points.antt =====
-- Which points are written for the messages that come from the broker.
use aghast.Base.{
  ◌≡◌, refl, ap, ◌∙◌, sym, String, false, Option, none, some, List, [], ◌∷◌, ◌++◌, map,
  if◌then◌else◌, ◌==◌, string_comparable, inl, inr, Bool-cases, Option-cases, itoa, IsInt64,
  atoi-itoa, Outcome, done, panicked, ◌>>=◌,
}
use mathlib.Core.List.{append_assoc, append-nil}
use aghast.Base.Int.{ℤ, pos}
use aghast.Runtime.{Value, nil, other, bool, int, int64, float64, string, bytes, as_string}
use aghast.Mqtt.{GeneralMsg}
use aghast.Loggers.{Floats}
use aghast.Loggers.Extraction.{taken, json_field, or_panics, value_of-bytes, arrived}
use aghast.Influx.{
  LoggerT, Field, float, integer, text, Point, Written, point_key, float_of, integer_of, field_for,
  add_point, log_message, log_messages,
}

module _ {F : Type 0} (floats : Floats F) where
  -- The fields for a value: one, none if a number cannot be read, or no outcome for a value that is
  -- not a text where a text is logged.
  abbrev pub fields_for : (data_type : String) → Value F → Option (List (Field F))
  fields_for data_type v =
      if data_type == "float"
      then some (elim (float_of floats v) [ none ↦ [] | some x ↦ float x ∷ [] ])
      else if data_type == "integer"
      then some (elim (integer_of floats v) [ none ↦ [] | some n ↦ integer n ∷ [] ])
      else elim (as_string v) [ done s ↦ some (text s ∷ []) | _ ↦ none ]

  module _ (l : LoggerT) where
    abbrev pub points_with : List (Field F) → List (Point F)
    points_with fields =
        map (λ f. record { name = l.name; event_name = point_key l; field = f }) fields

    -- One message.
    abbrev pub fields_from : GeneralMsg String → Option (List (Field F))
    fields_from msg = elim (taken floats l.key msg.payload) [
      | none ↦ none
      | some v ↦ fields_for l.data_type v
    ]

    abbrev pub joined : Option (List (Field F)) → Option (List (Point F)) → Option (List (Point F))
    joined none later = none
    joined (some fields) none = none
    joined (some fields) (some points) = some (points_with fields ++ points)

    -- The specification; none: the program ends.
    abbrev pub points_for : List (GeneralMsg String) → Option (List (Point F))
    points_for [] = some []
    points_for (msg ∷ msgs) = joined (fields_from msg) (points_for msgs)

    abbrev more : List (Field F) → Written F → Written F
    more fields w = record w { points = w.points ++ points_with fields }

    abbrev told : Option (List (Field F)) → Written F → Outcome (Option (Written F))
    told none w = panicked
    told (some fields) w = done (some (more fields w))

    none_added : (w : Written F) → done (some w) ≡ told (some []) w
    none_added w = ap (λ ps. done (some (record w { points = ps }))) (sym (append-nil w.points))

    field_for_lem :
        (v : Value F) (w : Written F)
        → (field_for floats l.data_type v >>= λ field. done (some (add_point l field w)))
          ≡ told (fields_for l.data_type v) w
    unfolding field_for
    field_for_lem v w = elim (Bool-cases (l.data_type == "float")) [
      | inl e ↦ elim (Option-cases (float_of floats v)) [
        | inl f ↦ rw (field_for, fields_for, e, f) (none_added w)
        | inr (x, f) ↦ rw (field_for, fields_for, e, f) refl
      ]
      | inr e ↦ elim (Bool-cases (l.data_type == "integer")) [
        | inl i ↦ elim (Option-cases (integer_of floats v)) [
          | inl f ↦ rw (field_for, fields_for, e, i, f) (none_added w)
          | inr (n, f) ↦ rw (field_for, fields_for, e, i, f) refl
        ]
        | inr i ↦ rw (field_for, fields_for, e, i) (as_text v w)
      ]
    ]
      where
        as_text :
            (v : Value F) (w : Written F)
            → (as_string v >>= (λ s. done (some (text s))) >>= λ field.
                done (some (add_point l field w)))
              ≡ told (elim (as_string v) [ done s ↦ some (text s ∷ []) | _ ↦ none ]) w
        as_text nil w = refl
        as_text other w = refl
        as_text (bool b) w = refl
        as_text (int n) w = refl
        as_text (int64 n) w = refl
        as_text (float64 x) w = refl
        as_text (string s) w = refl
        as_text (bytes s) w = refl

    abbrev after : Written F → Option (Value F) → Outcome (Option (Written F))
    after w value = elim value [
      | none ↦ done none
      | some v ↦ (field_for floats l.data_type v >>= λ field. done (some (add_point l field w)))
    ]

    log_message_lem :
        (msg : GeneralMsg String) (w : Written F)
        → log_message floats l (arrived msg) w ≡ told (fields_from msg) w
    unfolding log_message
    log_message_lem msg w =
        ap (λ o. o >>= after w) (value_of-bytes floats l.key msg.payload)
        ∙ from_value (taken floats l.key msg.payload)
      where
        from_value :
            (value : Option (Value F))
            → (or_panics floats value >>= after w)
              ≡ told (elim value [ none ↦ none | some v ↦ fields_for l.data_type v ]) w
        from_value none = refl
        from_value (some v) = field_for_lem v w

    abbrev outcome : Option (List (Point F)) → Written F → Outcome (Option (Written F))
    outcome none w = panicked
    outcome (some points) w = done (some (record w { points = w.points ++ points }))

    -- A logger of Influx, on the messages that come from the broker: it has written the points that the
    -- specification names, one message after the other, or the program has ended if one of them has none.
    pub log_messages_lem :
        (msgs : List (GeneralMsg String)) (w : Written F)
        → log_messages floats l (map arrived msgs) w ≡ outcome (points_for msgs) w
    unfolding log_messages
    log_messages_lem [] w =
        ap (λ ps. done (some (record w { points = ps }))) (sym (append-nil w.points))
    log_messages_lem (msg ∷ msgs) w =
        ap (λ o. o >>= rest) (log_message_lem msg w)
        ∙ go (fields_from msg) (λ fields. log_messages_lem msgs (more fields w))
      where
        rest : Option (Written F) → Outcome (Option (Written F))
        rest next = elim next [
          | none ↦ done none
          | some w' ↦ log_messages floats l (map arrived msgs) w'
        ]

        regroup :
            (fields : List (Field F)) (points : Option (List (Point F)))
            → outcome points (more fields w) ≡ outcome (joined (some fields) points) w
        regroup fields none = refl
        regroup fields (some points) =
            ap (λ ps. done (some (record w { points = ps })))
              (append_assoc w.points (points_with fields) points)

        go :
            (fields : Option (List (Field F)))
            → ((fs : List (Field F))
                → log_messages floats l (map arrived msgs) (more fs w)
                  ≡ outcome (points_for msgs) (more fs w))
            → (told fields w >>= rest) ≡ outcome (joined fields (points_for msgs)) w
        go none later = refl
        go (some fields) later = later fields ∙ regroup fields (points_for msgs)

    -- A whole number that is logged without a key, as its decimal text, by a logger of integers: the
    -- point holds that number.
    pub integer_text :
        (z : ℤ) (msg : GeneralMsg String) (w : Written F)
        → l.key ≡ ""
        → l.data_type ≡ "integer"
        → IsInt64 z
        → msg.payload ≡ itoa z
        → log_message floats l (arrived msg) w ≡ done (some (add_point l (some (integer z)) w))
    unfolding integer_of
    integer_text z msg w no_key integers fits e =
        log_message_lem msg w
        ∙ rw (fields_from, taken, no_key, fields_for, integers, e, atoi-itoa z fits) refl

    -- A JSON number that is logged by a logger of integers: the point holds 0, whatever the number is.
    pub json_integer_zero :
        (x : F) (msg : GeneralMsg String) (w : Written F)
        → (l.key == "") ≡ false
        → l.data_type ≡ "integer"
        → json_field floats l.key msg.payload ≡ some (float64 x)
        → log_message floats l (arrived msg) w
          ≡ done (some (add_point l (some (integer (pos 0))) w))
    unfolding integer_of
    json_integer_zero x msg w keyed integers field =
        let zero_field : fields_from msg ≡ some (integer (pos 0) ∷ []) =
          rw (fields_from, taken, keyed, field, fields_for, integers) refl in
        log_message_lem msg w ∙ ap (λ fields. told fields w) zero_field
