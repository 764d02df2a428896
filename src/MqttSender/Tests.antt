-- ===== src/MqttSender/Tests.antt =====
-- The senders at concrete inputs.
use aghast.Base.{ℕ, ◌≡◌, refl, string_comparable, [], ◌∷◌, done, panicked, arith}
use aghast.Base.Int.{pos}
use aghast.Runtime.{Value}
use aghast.Mqtt.{Mqtt}
use aghast.MqttSender.{SenderT, message_of, run_sender, with_period}
use aghast.MqttSender.Periods.{alone, with_copies_of, run_sender_lem, zero_period_panics}

abbrev minutely : SenderT
minutely = record {
  topic = "heartbeat";
  payload = "alive";
  interval = "Minutes";
  period = pos 1;
  period_secs = pos 60;
}

abbrev never : SenderT
never = record minutely { interval = "Hours"; period = pos 0; period_secs = pos 0 }

abbrev silent : Mqtt (Value ℕ)
silent = record {
  publish_chan = [];
  third_party_chan = [];
  subs = [];
  inbound = [];
  base_topic = "aghast";
  calls = [];
  fan_outs = [];
}

run_sender_lem_example :
    run_sender 150 0 (minutely ∷ []) alone silent
    ≡ done (with_copies_of 2 (message_of minutely) silent)
run_sender_lem_example = run_sender_lem 150 59 minutely silent refl (omega arith)

never_loads : with_period never ≡ done never
unfolding with_period
never_loads = refl

zero_period_panics_instance : run_sender 1 0 (never ∷ minutely ∷ []) alone silent ≡ panicked
zero_period_panics_instance =
    zero_period_panics never (minutely ∷ []) alone silent 0 never refl never_loads
