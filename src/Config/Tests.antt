-- ===== src/Config/Tests.antt =====
-- The configuration at concrete inputs.
use aghast.Base.{
  ◌≡◌, ◌↔◌, refl, String, Bool, true, false, ◌||◌, ◌==◌, string_comparable, some, [], ◌∷◌,
  has_prefix, split, join, done, count_char, ℕ, Assoc, lookup,
}
use aghast.Config.{MainTree, texts, valid, check_main_config, change_enabled}
use aghast.Base.Int.{pos}
use aghast.Runtime.{Value, int64}
use aghast.Config.Preprocess.{Formats, cut, preprocess_toml}
use aghast.Config.Preprocess.Plain.{preprocess_toml_plain}
use aghast.Config.Preprocess.Labels.{
  Lines, nothing, line, plain, secret, constant, preprocess_toml-Lines,
}
use aghast.Config.Checking.{IsComplete, check_main_config_iff}
use aghast.Config.Enabling.{Rewritten, change_enabled-Rewritten, change_enabled_twice}

abbrev lights_file : String
lights_file = "Name = \"Lights\"\nEnabled = true\nEventTopic = \"dusk\"\n"

abbrev lights_file_off : String
lights_file_off = "Name = \"Lights\"\nEnabled = false\nEventTopic = \"dusk\"\n"

switched_off : change_enabled false (some lights_file) ≡ some lights_file_off
unfolding change_enabled has_prefix split join
switched_off = refl

change_enabled-Rewritten_example :
    Rewritten "Enabled = false" (split b'\n' lights_file) (split b'\n' lights_file_off)
change_enabled-Rewritten_example =
    change_enabled-Rewritten false lights_file lights_file_off switched_off

change_enabled_twice_instance :
    change_enabled true (change_enabled false (some lights_file))
    ≡ change_enabled true (some lights_file)
change_enabled_twice_instance = change_enabled_twice true false (some lights_file)

abbrev present : String → Bool
present f = f == "time.toml" || f == "automation"

abbrev main : MainTree
main = record {
  has_system_name = true;
  has_control_port = true;
  integrations = texts ("time" ∷ "automation" ∷ []);
}

check_main_config_iff_example :
    (check_main_config present (some main) ≡ done valid) ↔ IsComplete present main
check_main_config_iff_example = check_main_config_iff present main

abbrev decimals : Formats ℕ
decimals = record { decimal = λ n. "1"; fixed = λ x. "1.0" }

-- An array whose bracket is the file's last character.
abbrev list_file : String
list_file = "Period = [\n3\n]"

-- PreprocessTOML loses the bracket.
preprocess_toml_plain_instance :
    (list_file ≡ "Period = [\n3\n]")
    × (preprocess_toml decimals (some list_file) (some []) (some [])
        ≡ done (some "Period = [\n3\n"))
unfolding split cut has_prefix
preprocess_toml_plain_instance =
    preprocess_toml_plain decimals [] [] list_file ("Period = [" ∷ "3" ∷ []) "]" refl
      ((refl, refl), ((refl, refl), tt)) (refl, refl)

abbrev port_secret : Assoc (Value ℕ)
port_secret = ("port", int64 (pos 1)) ∷ []

abbrev port_file : String
port_file = "# Broker\nPort = \"!!SECRET(port)\"\nKeep = \"!!CONSTANT(port)\"\n"

port_lines :
    Lines decimals port_secret port_secret
      ("# Broker" ∷ "Port = \"!!SECRET(port)\"" ∷ "Keep = \"!!CONSTANT(port)\"" ∷ [])
      "# Broker\nPort = 1\nKeep = 1\n"
unfolding cut has_prefix count_char lookup
port_lines = line (plain (refl, refl)) (
    line (secret "Port = " "port" "\"\n" {v = int64 (pos 1)} refl refl refl) (
      line (constant "Keep = " "port" "\"\n" {v = int64 (pos 1)} refl refl refl refl refl) nothing))

preprocess_toml-Lines_example :
    preprocess_toml decimals (some port_file) (some port_secret) (some port_secret)
    ≡ done (some "# Broker\nPort = 1\nKeep = 1\n")
unfolding split cut has_prefix
preprocess_toml-Lines_example =
    preprocess_toml-Lines decimals port_secret port_secret port_file
      ("# Broker" ∷ "Port = \"!!SECRET(port)\"" ∷ "Keep = \"!!CONSTANT(port)\"" ∷ []) ""
      "# Broker\nPort = 1\nKeep = 1\n" refl port_lines (refl, refl)
