-- ===== src/MqttCache/Tests.antt =====
-- The cache at concrete inputs.
use aghast.Base.{refl, drop_prefix, ℕ, ◌≡◌, false, List, [], ◌∷◌}
use aghast.Base.Int.{pos}
use aghast.Runtime.{Value, bytes}
use aghast.Mqtt.{Mqtt, GeneralMsg, send_third_party}
use aghast.MqttCache.{Setting, fill_map, respond, reply_to}
use aghast.MqttCache.History.{Arrivals, store_all, respond-history}

abbrev settings : List Setting
settings = record { topic = "meter"; retain_secs = pos 60 } ∷ []

abbrev reading : GeneralMsg (Value ℕ)
reading = record { topic = "meter"; qos = 0; retained = false; payload = bytes "42" }

abbrev readings : Arrivals ℕ
readings = (reading, 1000000000) ∷ []

abbrev request : GeneralMsg (Value ℕ)
request = record {
  topic = "aghast/mqttcache/get/meter";
  qos = 0;
  retained = false;
  payload = bytes "";
}

abbrev silent : Mqtt (Value ℕ)
silent = record {
  publish_chan = [];
  third_party_chan = [];
  subs = [];
  inbound = [];
  base_topic = "aghast";
  calls = [];
  fan_outs = [];
}

-- Half a minute later.
respond-history_example :
    respond request 31000000000 (store_all readings (fill_map settings [])) silent
    ≡ send_third_party (reply_to "meter" "42") silent
unfolding drop_prefix
respond-history_example = respond-history settings readings "meter" 31000000000 request silent refl
