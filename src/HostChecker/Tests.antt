-- ===== src/HostChecker/Tests.antt =====
-- A host checker at concrete inputs.
use aghast.Base.{
  ℕ, ◌≡◌, String, true, false, List, [], ◌∷◌, ◌++◌, none, some, lookup_or, replicate, done,
}
use aghast.Base.Int.{pos}
use aghast.HostChecker.{HostCheckerT, Checkers, Dial, start, stop}
use aghast.HostChecker.Queries.{stop_keeps_channel}
use aghast.Mqtt.{Mqtt}
use aghast.HostChecker.States.{messages, announced, messages_lem}

abbrev router : HostCheckerT
router = record {
  name = "router";
  host = "192.168.0.1";
  label = "Router";
  period = pos 30;
  port = pos 80;
  alive = false;
  first_check = true;
  response_time = 0;
}

abbrev digits : ℕ → String
digits n = "3"

-- Up twice, then down.
abbrev dials : List Dial
dials = some 3000000 ∷ some 3500000 ∷ none ∷ []

messages_lem_example :
    messages digits {F = ℕ} dials router ≡ announced digits {F = ℕ} "router" none dials
messages_lem_example = messages_lem digits {F = ℕ} dials router

abbrev checkers : Checkers
checkers = record { checker = router ∷ []; checkers_by_name = ("router", 0) ∷ [] }

abbrev silent : Mqtt String
silent = record {
  publish_chan = [];
  third_party_chan = [];
  subs = [];
  inbound = [];
  base_topic = "aghast";
  calls = [];
  fan_outs = [];
}

stop_keeps_channel_example :
    let (chs, started, ch) = start checkers ([], silent) in
    (left : Mqtt String) × (stop (chs, started) ≡ done (replicate 2 false, left))
    × (lookup_or [] "aghast/hostchecker/get/+" left.subs
        ≡ lookup_or [] "aghast/hostchecker/get/+" silent.subs ++ ch ∷ [])
stop_keeps_channel_example = stop_keeps_channel checkers silent
