-- ===== src/Influx/Readings.antt =====
-- A logger of floating-point numbers, on messages that hold a number or a text.
use mathlib.Core.List.{map-append}
use aghast.Base.{
  ◌≡◌, refl, ap, ◌∙◌, String, none, some, List, [], ◌∷◌, ◌++◌, map, join, if◌then◌else◌, ◌==◌,
  string_comparable, inl, inr, Bool-cases, done,
}
use aghast.Runtime.{float64, string}
use aghast.Mqtt.{GeneralMsg}
use aghast.Loggers.{Floats}
use aghast.Loggers.Extraction.{taken, arrived}
use aghast.Influx.{LoggerT, float, Point, Written, point_key, float_of, log_messages}
use aghast.Influx.Points.{points_with, fields_from, points_for, log_messages_lem}

module _ {F : Type 0} (floats : Floats F) (l : LoggerT) where
  open floats use {parse_float}

  -- What is read of a message: its number, or that of its text, if the text is one.
  pub data Reading (msg : GeneralMsg String) : List F → Type 0 where
    number : {x : F} → taken floats l.key msg.payload ≡ some (float64 x) → Reading msg (x ∷ [])
    read :
        {s : String} {x : F}
        → taken floats l.key msg.payload ≡ some (string s)
        → parse_float s ≡ some x
        → Reading msg (x ∷ [])
    unread :
        {s : String}
        → taken floats l.key msg.payload ≡ some (string s)
        → parse_float s ≡ none
        → Reading msg []

  pub data Readings : List (GeneralMsg String) → List F → Type 0 where
    nothing : Readings [] []
    reading :
        {msg : GeneralMsg String} {xs ys : List F} {msgs : List (GeneralMsg String)}
        → Reading msg xs
        → Readings msgs ys
        → Readings (msg ∷ msgs) (xs ++ ys)

  -- The topic, and the key if there is one, with a slash between them.
  abbrev pub path_parts : List String
  path_parts = if l.key == "" then l.topic ∷ [] else l.topic ∷ l.key ∷ []

  abbrev pub point_of : F → Point F
  point_of x = record { name = l.name; event_name = join "/" path_parts; field = float x }

  point_key_lem : point_key l ≡ join "/" path_parts
  unfolding join
  point_key_lem = elim (Bool-cases (l.key == "")) [
    | inl e ↦ rw (point_key, path_parts, e) refl
    | inr e ↦ rw (point_key, path_parts, e) refl
  ]

  points_with-float : (xs : List F) → points_with floats l (map (λ x. float x) xs) ≡ map point_of xs
  points_with-float [] = refl
  points_with-float (x ∷ xs) =
      ap
        (λ e.
          record { name = l.name; event_name = e; field = float x }
          ∷ points_with floats l (map (λ x. float x) xs))
        point_key_lem
      ∙ ap (λ ps. point_of x ∷ ps) (points_with-float xs)

  fields_from-Reading :
      (msg : GeneralMsg String) (xs : List F)
      → l.data_type ≡ "float"
      → Reading msg xs
      → fields_from floats l msg ≡ some (map (λ x. float x) xs)
  unfolding float_of
  fields_from-Reading msg xs floating (number at) = rw (fields_from, at, floating) refl
  fields_from-Reading msg xs floating (read at parsed) = rw (fields_from, at, floating, parsed) refl
  fields_from-Reading msg xs floating (unread at parsed) =
      rw (fields_from, at, floating, parsed) refl

  points_for-Readings :
      {msgs : List (GeneralMsg String)} {xs : List F}
      → l.data_type ≡ "float"
      → Readings msgs xs
      → points_for floats l msgs ≡ some (map point_of xs)
  points_for-Readings floating nothing = refl
  points_for-Readings floating (reading {msg} {xs} {ys} {msgs} r rs) =
      rw
        (
          points_for,
          fields_from-Reading msg xs floating r,
          points_for-Readings floating rs,
          points_with-float xs,
          map-append,
        )
        refl

  -- A logger of floating-point numbers, on messages each of which holds a number or a text where the
  -- logger looks, writes a point for each number, and for each text that is one, in the order of the
  -- messages, and leaves the others out: with the name of the logger, its path of topic and key, and
  -- the number that was read.
  pub log_messages-Readings :
      (msgs : List (GeneralMsg String)) (xs : List F) (w : Written F)
      → l.data_type ≡ "float"
      → Readings msgs xs
      → log_messages floats l (map arrived msgs) w
        ≡ done (some (record w { points = w.points ++ map point_of xs }))
  log_messages-Readings msgs xs w floating rs =
      log_messages_lem floats l msgs w ∙ rw (points_for-Readings floating rs) refl
