-- ===== src/Config/Preprocess/Labels.antt =====
-- What PreprocessTOML makes of a file with labelled lines.
use Prim.Native.String
use Prim.Native.String.{[], ◌∷◌}
use text.Mathlib.TextLemmas.{nil-append}
use mathlib.Core.List.{List, ◌++◌}
use aghast.Base.{
  ◌≡◌, refl, sym, ap, ◌∙◌, String, Option, none, some, nat_comparable, Assoc, lookup, count_char,
  split, done,
}
use aghast.Runtime.{Value}
use aghast.Config.Preprocess.{
  Formats, printed, substitute, process_line, process_lines, preprocess_toml,
}
use aghast.Config.Preprocess.Plain.{
  HasNoLabel, kept_end, process_line_plain, process_last, regrouped,
}
use aghast.Config.Preprocess.Cuts.{
  quote, labelled, drop_last-append, until_closing-append, secret_cut, constant_cut,
  constant_unlike,
}

module _ {F : Type 0} (formats : Formats F) (secrets constants : Assoc (Value F)) where
  -- The text in front is kept, the value of the name is printed, and what follows is dropped.
  abbrev pub valued : (kept : String) → Option (Value F) → Option String
  valued kept none = none
  valued kept (some v) = some (String.◌++◌ kept (printed formats v))

  substitute_lem :
      (conf : Assoc (Value F)) (kept name rest : String)
      → count_char b')' name ≡ 0
      → substitute formats conf
          (String.◌++◌ kept (quote ∷ ""))
          (String.◌++◌ name (String.◌++◌ ")" rest))
        ≡ done (valued kept (lookup name conf))
  unfolding substitute
  substitute_lem conf kept name rest h =
      rw (drop_last-append kept quote, until_closing-append name rest h) (found (lookup name conf))
    where
      found :
          (r : Option (Value F))
          → (elim r [
            | none ↦ done none
            | some v ↦ done (some (String.◌++◌ kept (printed formats v)))
          ])
            ≡ done (valued kept r)
      found none = refl
      found (some v) = refl

  -- A line of the file, with its newline, and what becomes of it.
  pub data Line : String → String → Type 0 where
    plain : {raw : String} → HasNoLabel raw → Line raw raw
    secret :
        (kept name rest : String) {v : Value F}
        → count_char b'!' kept ≡ 0
        → count_char b')' name ≡ 0
        → lookup name secrets ≡ some v
        → Line (labelled kept "!!SECRET(" name rest) (String.◌++◌ kept (printed formats v))
    constant :
        (kept name rest : String) {v : Value F}
        → count_char b'!' kept ≡ 0
        → count_char b'!' name ≡ 0
        → count_char b'!' rest ≡ 0
        → count_char b')' name ≡ 0
        → lookup name constants ≡ some v
        → Line (labelled kept "!!CONSTANT(" name rest) (String.◌++◌ kept (printed formats v))

  process_line-Line :
      {raw out : String}
      → Line raw out
      → process_line formats secrets constants raw ≡ done (some out)
  unfolding process_line
  process_line-Line (plain {raw} h) = process_line_plain formats secrets constants raw h
  process_line-Line (secret kept name rest h k found) =
      rw (process_line, secret_cut kept name rest h)
        (substitute_lem secrets kept name rest k ∙ ap (λ r. done (valued kept r)) found)
  process_line-Line (constant kept name rest h i j k found) =
      rw (process_line, constant_unlike kept name rest h i j, constant_cut kept name rest h)
        (substitute_lem constants kept name rest k ∙ ap (λ r. done (valued kept r)) found)

  -- The lines of the file without their newlines, and what becomes of them together.
  pub data Lines : List String → String → Type 0 where
    nothing : Lines List.[] ""
    line :
        {p out outs : String} {ps : List String}
        → Line (String.◌++◌ p "\n") out
        → Lines ps outs
        → Lines (List.◌∷◌ p ps) (String.◌++◌ out outs)

  first_printed :
      (p q : String) (rest : List String) (out preprocessed : String)
      → Line (String.◌++◌ p "\n") out
      → process_lines formats secrets constants (List.◌∷◌ p (List.◌∷◌ q rest)) preprocessed
        ≡ process_lines formats secrets constants (List.◌∷◌ q rest) (String.◌++◌ preprocessed out)
  unfolding process_lines
  first_printed p q rest out preprocessed l = rw (process_line-Line l) refl

  process_lines-Lines :
      {lines : List String} {out : String} (last preprocessed : String)
      → Lines lines out
      → HasNoLabel last
      → process_lines formats secrets constants (lines ++ List.◌∷◌ last List.[]) preprocessed
        ≡ done (some (String.◌++◌ preprocessed (String.◌++◌ out (kept_end last))))
  process_lines-Lines last preprocessed nothing h =
      process_last formats secrets constants last preprocessed h
      ∙ ap (λ x. done (some (String.◌++◌ preprocessed x))) (sym (nil-append (kept_end last)))
  process_lines-Lines last preprocessed (line {p} {out} l nothing) h =
      first_printed p last List.[] out preprocessed l
      ∙ process_lines-Lines last (String.◌++◌ preprocessed out) nothing h
      ∙ ap (λ x. done (some x)) (regrouped preprocessed out "" (kept_end last))
  process_lines-Lines last preprocessed (line {p} {out} l (line {p = q} {outs} {ps} m ms)) h =
      first_printed p q (ps ++ List.◌∷◌ last List.[]) out preprocessed l
      ∙ process_lines-Lines last (String.◌++◌ preprocessed out) (line m ms) h
      ∙ ap (λ x. done (some x)) (regrouped preprocessed out _ (kept_end last))

  -- A file each of whose lines has no label, or the label of a secret or of a constant with a name
  -- that is found, cut into its lines and the text behind the last newline, which has no label:
  -- PreprocessTOML returns the lines with each label, its quotation mark and all behind it replaced by
  -- the printed value, and the text behind the last newline if it has three bytes or more. No
  -- exclamation mark stands before a label, nor behind that of a constant, and no closing parenthesis in
  -- a name.
  pub preprocess_toml-Lines :
      (file : String) (lines : List String) (last out : String)
      → split b'\n' file ≡ lines ++ List.◌∷◌ last List.[]
      → Lines lines out
      → HasNoLabel last
      → preprocess_toml formats (some file) (some secrets) (some constants)
        ≡ done (some (String.◌++◌ out (kept_end last)))
  unfolding preprocess_toml
  preprocess_toml-Lines file lines last out parts ls h =
      ap (λ ps. process_lines formats secrets constants ps "") parts
      ∙ process_lines-Lines last "" ls h
      ∙ ap (λ x. done (some x)) (nil-append (String.◌++◌ out (kept_end last)))
