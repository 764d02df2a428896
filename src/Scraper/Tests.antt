-- ===== src/Scraper/Tests.antt =====
-- The scraper at concrete inputs; a floating-point number is a natural one.
use aghast.Base.{ℕ, ◌≡◌, refl, String, none, some, Option, List, [], ◌∷◌, arith, panicked}
use aghast.Base.Int.{pos}
use aghast.Runtime.{Value}
use aghast.Mqtt.{Mqtt}
use aghast.Scraper.{ScraperT, Saved, wanted_from, trim_suffix, message_for, on_page}
use aghast.Scraper.Pages.{Publishes, on_page_lem}

abbrev toner : ScraperT
toner = record {
  name = "BrotherA3";
  url = "http://192.168.1.17/general/status.html";
  interval = pos 30;
  selector = ".tonerremain";
  attribute = "height";
  indices = pos 1 ∷ pos 0 ∷ [];
  subtopics = "Black" ∷ "Yellow" ∷ [];
  suffix = "px";
  value_type = "integer";
}

abbrev nothing : Saved ℕ
nothing = record { strings = []; integers = []; floats = [] }

abbrev silent : Mqtt (Value ℕ)
silent = record {
  publish_chan = [];
  third_party_chan = [];
  subs = [];
  inbound = [];
  base_topic = "aghast";
  calls = [];
  fan_outs = [];
}

abbrev no_floats : String → Option ℕ
no_floats text = none

abbrev page : List String
page = "12px" ∷ "34px" ∷ "56px" ∷ []

on_page_lem_example :
    Publishes no_floats toner
      (some (message_for "BrotherA3" "Yellow" "12" ∷ message_for "BrotherA3" "Black" "34" ∷ []))
      silent
      (on_page no_floats toner 0 page (nothing, silent))
unfolding trim_suffix
on_page_lem_example = on_page_lem no_floats toner page nothing silent (omega arith)

-- Only the second element is asked for: as many indices as subtopics, but the program ends.
abbrev second_only : ScraperT
second_only = record toner { indices = pos 1 ∷ []; subtopics = "Yellow" ∷ [] }

second_only_panics : on_page no_floats second_only 0 page (nothing, silent) ≡ panicked
unfolding on_page wanted_from
second_only_panics = refl
