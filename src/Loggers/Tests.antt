-- ===== src/Loggers/Tests.antt =====
-- Two loggers of one topic are started and stopped.
use mathlib.Core.List.{Perm}
use aghast.Base.{ℕ, ◌≡◌, String, List, [], ◌∷◌, map, lookup_or, done}
use aghast.Mqtt.{Mqtt}
use aghast.Loggers.{start_each, stop_each}
use aghast.Loggers.Lifetime.{stop_each-start_each}

abbrev silent : Mqtt String
silent = record {
  publish_chan = [];
  third_party_chan = [];
  subs = ("meter", 0 ∷ []) ∷ [];
  inbound = [] ∷ [];
  base_topic = "aghast";
  calls = [];
  fan_outs = [];
}

abbrev two : List (String × ℕ)
two = ("meter", 1) ∷ ("meter", 2) ∷ []

stop_each-start_each_example :
    let (gs, started) = start_each two silent in
    (left : Mqtt String) × (stop_each (λ n. n) gs started ≡ done (map (λ g. g.own) gs, left))
    × ((t : String) → Perm (lookup_or [] t left.subs) (lookup_or [] t silent.subs))
stop_each-start_each_example = stop_each-start_each (λ n. n) two silent
