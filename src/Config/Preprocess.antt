-- ===== src/Config/Preprocess.antt =====
-- PreprocessTOML. The three files are arguments, none being one that cannot be read; a secret or a
-- constant is looked up by its dotted path. Positions are in characters: the character in front of
-- a label, which the code cuts off as one byte, is taken to be ASCII.
pub mod Plain
pub mod Cuts
pub mod Labels
use Prim.Native.String
use Prim.Native.String.{[], ◌∷◌, len}
use Prim.Native.Char.{Char, code}
use mathlib.Core.List.{List}
use aghast.Base.{
  ℕ, String, Bool, true, false, Option, none, some, if◌then◌else◌, ◌==◌, nat_comparable, ltb, Assoc,
  lookup, has_prefix, drop_prefix, split, Outcome, done, panicked, ◌>>=◌,
}
use aghast.Base.Int.{ℤ}
use aghast.Runtime.{Value, string, int64, float64}

-- strings.Index: the text in front of the first occurrence of a label, and the text behind it.
unfoldable pub cut : String → String → Option (String × String)
unfolding drop_prefix
cut label [] = none
cut label (c ∷ s) =
    let later = cut label s in
    if has_prefix (c ∷ s) label
    then elim (drop_prefix (c ∷ s) label) [ none ↦ none | some after ↦ some ("", after) ]
    else elim later [ none ↦ none | some (before, after) ↦ some (c ∷ before, after) ]

-- `rawLine[:sIx-1]`, none where the slice panics.
unfoldable pub drop_last : String → Option String
drop_last [] = none
drop_last (c ∷ s) = elim (drop_last s) [ none ↦ some "" | some kept ↦ some (c ∷ kept) ]

-- The name up to the closing parenthesis.
unfoldable pub until_closing : String → Option String
until_closing [] = none
until_closing (c ∷ s) =
    let later = until_closing s in
    if code c == b')' then some "" else elim later [ none ↦ none | some name ↦ some (c ∷ name) ]

abbrev pub or_panic {ℓ} : {A : Type ℓ} → Option A → Outcome A
or_panic none = panicked
or_panic (some a) = done a

-- The formats %d and %f.
pub record Formats (F : Type 0) : Type 0 where
  pub decimal : ℤ → String
  pub fixed : F → String

module _ {F : Type 0} (formats : Formats F) where
  -- The switch on the kind of the new value; any other kind adds nothing, not even a newline.
  abbrev pub printed : Value F → String
  printed (string s) = String.◌++◌ "\"" (String.◌++◌ s "\"\n")
  printed (int64 n) = String.◌++◌ (formats.decimal n) "\n"
  printed (float64 x) = String.◌++◌ (formats.fixed x) "\n"
  printed _ = ""

  -- One of the two substitutions; none is the error that the name is not found.
  unfoldable pub substitute : Assoc (Value F) → (before after : String) → Outcome (Option String)
  unfolding drop_last until_closing
  substitute conf before after = do
    kept ← or_panic (drop_last before)
    name ← or_panic (until_closing after)
    elim (lookup name conf) [
      | none ↦ done none
      | some v ↦ done (some (String.◌++◌ kept (printed v)))
    ]

  -- One line, with its newline if it has one.
  unfoldable pub process_line :
      (secrets constants : Assoc (Value F)) → String → Outcome (Option String)
  unfolding cut substitute
  process_line secrets constants raw = elim (cut "!!SECRET(" raw) [
    | some (before, after) ↦ substitute secrets before after
    | none ↦ elim (cut "!!CONSTANT(" raw) [
      | some (before, after) ↦ substitute constants before after
      | none ↦ done (some raw)
    ]
  ]

  -- The loop over the lines, the last of which ends in the end of the file. The code returns there
  -- if it has fewer than three bytes, and otherwise after it, with an empty line.
  unfoldable pub process_lines :
      (secrets constants : Assoc (Value F)) → List String → String → Outcome (Option String)
  unfolding process_line
  process_lines secrets constants List.[] preprocessed = done (some preprocessed)
  process_lines secrets constants (List.◌∷◌ last List.[]) preprocessed =
      if ltb (len last) 3
      then done (some preprocessed)
      else (process_line secrets constants last >>= λ line. elim line [
        | none ↦ done none
        | some l ↦ done (some (String.◌++◌ preprocessed l))
      ])
  process_lines secrets constants (List.◌∷◌ p (List.◌∷◌ q rest)) preprocessed =
      process_line secrets constants (String.◌++◌ p "\n") >>= λ line. elim line [
        | none ↦ done none
        | some l ↦ process_lines secrets constants (List.◌∷◌ q rest) (String.◌++◌ preprocessed l)
      ]

  -- none: an error, of a file that cannot be read or a name that is not found.
  unfoldable pub preprocess_toml :
      (file : Option String) (secrets constants : Option (Assoc (Value F)))
      → Outcome (Option String)
  unfolding process_lines
  preprocess_toml none secrets constants = done none
  preprocess_toml (some file) none constants = done none
  preprocess_toml (some file) (some secrets) none = done none
  preprocess_toml (some file) (some secrets) (some constants) =
      process_lines secrets constants (split b'\n' file) ""
