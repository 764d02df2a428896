-- ===== src/AghastServer.antt =====
-- cmd/aghastServer/aghastServer.go: the main program, up to the moment at which the server listens for
-- requests. What it finds outside is the record `Surroundings`.
pub mod Running
mod Tests
use aghast.Base.{
  ℕ, String, Bool, Option, none, some, List, [], Assoc, if◌then◌else◌, ◌==◌, string_comparable,
  Outcome, done, fatal, ◌>>=◌,
}
use aghast.Runtime.{Value, string}
use aghast.Config.{MainTree, Verdict, valid, check_main_config}
use aghast.Config.Preprocess.{Formats}
use aghast.Config.Main.{MainConfig, load_main_config}
use aghast.Mqtt.{Mqtt, start}
use aghast.Server.{Instances, Server, start_integrations}

pub record Surroundings (F : Type 0) : Type 0 where
  pub formats : Formats F
  pub exists : String → Bool  -- os.Stat below the configuration directory
  pub main_tree : Option MainTree  -- config.toml as CheckMainConfig reads it
  pub decode : String → Option (MainConfig F)
  pub file : Option String
  pub secrets : Option (Assoc (Value F))
  pub constants : Option (Assoc (Value F))
  pub connected : Bool
  pub instances : Instances

abbrev pub fresh_mqtt : {F : Type 0} → Mqtt (Value F)
fresh_mqtt = record {
  publish_chan = [];
  third_party_chan = [];
  subs = [];
  inbound = [];
  base_topic = "";
  calls = [];
  fan_outs = [];
}

abbrev pub run_config :
    {F : Type 0}
    → (connected : Bool) → (instances : Instances) → MainConfig F
    → Outcome (Server × Mqtt (Value F))
run_config connected instances conf = do
  mq ←
      start connected (string "Starting") conf.mqtt_broker conf.mqtt_port conf.mqtt_username
        conf.mqtt_password conf.mqtt_client_id conf.mqtt_base_topic fresh_mqtt
  s ← start_integrations instances conf.integrations
  done (s, mq)

-- An error of the check ends the program.
abbrev pub accept : {A : Type 0} → Verdict → Outcome A → Outcome A
accept valid rest = rest
accept _ rest = fatal

unfoldable pub main :
    {F : Type 0} → (config_dir : String) → Surroundings F → Outcome (Server × Mqtt (Value F))
main config_dir w = if config_dir == "" then fatal else (do
  verdict ← check_main_config w.exists w.main_tree
  accept verdict (do
    conf ← load_main_config w.formats w.decode config_dir w.file w.secrets w.constants
    run_config w.connected w.instances conf))
