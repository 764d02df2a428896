-- ===== src/Config/Preprocess/Plain.antt =====
-- What PreprocessTOML makes of a file without labels.
use Prim.Native.String
use Prim.Native.String.{len}
use text.Mathlib.TextLemmas.{nil-append, append_assoc, append-nil}
use aghast.Base.{
  ◌≡◌, refl, sym, ap, ◌∙◌, String, none, some, List, [], ◌∷◌, ◌++◌, if◌then◌else◌, ltb, Assoc, All,
  split, join, join-split, Bool-cases, inl, inr, done,
}
use aghast.Runtime.{Value}
use aghast.Config.Preprocess.{Formats, cut, process_line, process_lines, preprocess_toml}

-- No label stands in a line.
abbrev pub HasNoLabel : String → Type 0
HasNoLabel raw = (cut "!!SECRET(" raw ≡ none) × (cut "!!CONSTANT(" raw ≡ none)

-- The lines of a file, each with its newline.
abbrev pub ended : List String → String
ended [] = ""
ended (p ∷ ps) = String.◌++◌ (String.◌++◌ p "\n") (ended ps)

abbrev pub ended_lines : List String → List String
ended_lines [] = []
ended_lines (p ∷ ps) = String.◌++◌ p "\n" ∷ ended_lines ps

-- What is kept of a last line without newline.
abbrev pub kept_end : String → String
kept_end last = if ltb (len last) 3 then "" else last

pub regrouped :
    (a p e k : String)
    → String.◌++◌ (String.◌++◌ a p) (String.◌++◌ e k)
      ≡ String.◌++◌ a (String.◌++◌ (String.◌++◌ p e) k)
regrouped a p e k =
    append_assoc a p (String.◌++◌ e k) ∙ ap (λ x. String.◌++◌ a x) (sym (append_assoc p e k))

join_step :
    (p rest e last : String)
    → rest ≡ String.◌++◌ e last
    → String.◌++◌ p (String.◌++◌ "\n" rest) ≡ String.◌++◌ (String.◌++◌ (String.◌++◌ p "\n") e) last
join_step p rest e last same =
    sym (append_assoc p "\n" rest)
    ∙ ap (λ x. String.◌++◌ (String.◌++◌ p "\n") x) same
    ∙ sym (append_assoc (String.◌++◌ p "\n") e last)

join-ended :
    (lines : List String) (last : String)
    → join "\n" (lines ++ last ∷ []) ≡ String.◌++◌ (ended lines) last
unfolding join
join-ended [] last = sym (nil-append last)
join-ended (p ∷ []) last = join_step p last "" last (sym (nil-append last))
join-ended (p ∷ q ∷ lines) last =
    join_step p (join "\n" (q ∷ lines ++ last ∷ [])) (ended (q ∷ lines)) last
      (join-ended (q ∷ lines) last)

module _ {F : Type 0} (formats : Formats F) (secrets constants : Assoc (Value F)) where
  pub process_line_plain :
      (raw : String) → HasNoLabel raw → process_line formats secrets constants raw ≡ done (some raw)
  unfolding process_line
  process_line_plain raw (s, c) = rw (process_line, s, c) refl

  pub process_last :
      (last preprocessed : String)
      → HasNoLabel last
      → process_lines formats secrets constants (last ∷ []) preprocessed
        ≡ done (some (String.◌++◌ preprocessed (kept_end last)))
  unfolding process_lines
  process_last last preprocessed h = elim (Bool-cases (ltb (len last) 3)) [
    | inl e ↦ rw e (ap (λ x. done (some x)) (sym (append-nil preprocessed)))
    | inr e ↦ rw (e, process_line_plain last h) refl
  ]

  step :
      (p q : String) (rest : List String) (preprocessed : String)
      → HasNoLabel (String.◌++◌ p "\n")
      → process_lines formats secrets constants (p ∷ q ∷ rest) preprocessed
        ≡ process_lines formats secrets constants
            (q ∷ rest)
            (String.◌++◌ preprocessed (String.◌++◌ p "\n"))
  unfolding process_lines
  step p q rest preprocessed h = rw (process_line_plain (String.◌++◌ p "\n") h) refl

  process_lines_plain :
      (lines : List String) (last preprocessed : String)
      → All HasNoLabel (ended_lines lines)
      → HasNoLabel last
      → process_lines formats secrets constants (lines ++ last ∷ []) preprocessed
        ≡ done (some (String.◌++◌ preprocessed (String.◌++◌ (ended lines) (kept_end last))))
  unfolding process_lines
  process_lines_plain [] last preprocessed h g =
      process_last last preprocessed g
      ∙ ap (λ x. done (some (String.◌++◌ preprocessed x))) (sym (nil-append (kept_end last)))
  process_lines_plain (p ∷ []) last preprocessed (h, hs) g =
      step p last [] preprocessed h
      ∙ process_lines_plain [] last (String.◌++◌ preprocessed (String.◌++◌ p "\n")) hs g
      ∙ ap (λ x. done (some x))
          (regrouped preprocessed (String.◌++◌ p "\n") (ended []) (kept_end last))
  process_lines_plain (p ∷ q ∷ lines) last preprocessed (h, hs) g =
      step p q (lines ++ last ∷ []) preprocessed h
      ∙ process_lines_plain (q ∷ lines) last (String.◌++◌ preprocessed (String.◌++◌ p "\n")) hs g
      ∙ ap (λ x. done (some x))
          (regrouped preprocessed (String.◌++◌ p "\n") (ended (q ∷ lines)) (kept_end last))

  -- A file in which no line has a label, cut into its lines and the text behind the last newline:
  -- PreprocessTOML returns it as it is if that text has three bytes or more, and without that text
  -- otherwise.
  pub preprocess_toml_plain :
      (file : String) (lines : List String) (last : String)
      → split b'\n' file ≡ lines ++ last ∷ []
      → All HasNoLabel (ended_lines lines)
      → HasNoLabel last
      → (file ≡ String.◌++◌ (ended lines) last)
        × (preprocess_toml formats (some file) (some secrets) (some constants)
            ≡ done (some (String.◌++◌ (ended lines) (kept_end last))))
  unfolding preprocess_toml
  preprocess_toml_plain file lines last parts h g = (
    sym (join-split file) ∙ ap (join "\n") parts ∙ join-ended lines last,
    ap (λ ps. process_lines formats secrets constants ps "") parts
        ∙ process_lines_plain lines last "" h g
        ∙ ap (λ x. done (some x)) (nil-append (String.◌++◌ (ended lines) (kept_end last))),
  )
