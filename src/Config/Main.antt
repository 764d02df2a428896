-- ===== src/Config/Main.antt =====
-- LoadMainConfig. The decoding of the TOML text is an argument.
use aghast.Base.{ℕ, String, Option, none, some, List, Assoc, Outcome, done, fatal, ◌>>=◌}
use aghast.Runtime.{Value}
use aghast.Config.Preprocess.{Formats, preprocess_toml}

pub record MainConfig (F : Type 0) : Type 0 where
  pub system_name : String
  pub longitude : F
  pub latitude : F
  pub mqtt_broker : String
  pub mqtt_port : ℕ
  pub mqtt_username : String
  pub mqtt_password : String
  pub mqtt_client_id : String
  pub mqtt_base_topic : String
  pub integrations : List String
  pub control_port : ℕ
  pub config_dir : String

-- The bytes that PreprocessTOML returns; with an error there are none.
abbrev pub text_of : Option String → String
text_of none = ""
text_of (some text) = text

-- The error of PreprocessTOML is overwritten by that of the decoding.
unfoldable pub load_main_config :
    {F : Type 0}
    → (formats : Formats F) → (decode : String → Option (MainConfig F)) → (config_dir : String)
    → (file : Option String) → (secrets constants : Option (Assoc (Value F)))
    → Outcome (MainConfig F)
load_main_config formats decode config_dir file secrets constants = do
  t ← preprocess_toml formats file secrets constants
  elim (decode (text_of t)) [
    | none ↦ fatal
    | some conf ↦ done (record conf { config_dir = config_dir })
  ]
