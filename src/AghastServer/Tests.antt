-- ===== src/AghastServer/Tests.antt =====
-- The main program at concrete inputs.
use mathlib.Core.List.{Memᴰ}
use aghast.Base.{
  false, ℕ, refl, String, true, ◌||◌, ◌==◌, string_comparable, none, some, List, [], ◌∷◌,
  if◌then◌else◌, done,
}
use aghast.Config.{MainTree, texts}
use aghast.Config.Checking.{IsComplete}
use aghast.Config.Preprocess.{Formats}
use aghast.Config.Main.{MainConfig}
use aghast.Mqtt.{Mqtt}
use aghast.Server.{Instances, Server}
use aghast.AghastServer.{Surroundings}

abbrev decimals : Formats ℕ
decimals = record { decimal = λ n. "1"; fixed = λ x. "1.0" }

abbrev names : List String
names = "time" ∷ "automation" ∷ []

abbrev tree : MainTree
tree = record { has_system_name = true; has_control_port = true; integrations = texts names }

abbrev config_with : String → MainConfig ℕ
config_with dir = record {
  system_name = "Home";
  longitude = 0;
  latitude = 0;
  mqtt_broker = "broker";
  mqtt_port = 1883;
  mqtt_username = "";
  mqtt_password = "";
  mqtt_client_id = "aghast";
  mqtt_base_topic = "aghast";
  integrations = names;
  control_port = 8080;
  config_dir = dir;
}

-- The Start of Tuya ends the program.
abbrev without_tuya : Instances
without_tuya = record {
  loads = λ name n. done true;
  starts = λ name n. if name == "tuya" then false else true;
  stops = λ name n calls. done tt;
}

-- The decoder knows one text.
abbrev home : Surroundings ℕ
home = record {
  formats = decimals;
  exists = λ f. f == "time.toml" || f == "automation";
  main_tree = some tree;
  decode = λ text. if text == "Home\n" then some (config_with "") else none;
  file = some "Home\n";
  secrets = some [];
  constants = some [];
  connected = true;
  instances = without_tuya;
}

abbrev home_complete : IsComplete home.exists tree
home_complete = record {
  names = names;
  system = refl;
  port = refl;
  given = refl;
  configured = (refl, (refl, tt));
  time = Memᴰ.head refl;
}
