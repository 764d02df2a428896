-- ===== src/Scraper.antt =====
-- integrations/scraper/scraper.go. Reading and decoding the TOML file is left to the caller of
-- `load_config`. The library that gets the page is not part of the repository: a page is the list of
-- what the attribute is in each element that the selector matches, in their order.
pub mod Pages
mod Tests
use aghast.Goroutines.{StopChans, begin_each, stop_each}
use Prim.Native.String
use aghast.Base.{
  ℕ, zero, suc, ◌+◌, String, Bool, true, false, ◌||◌, Option, none, some, List, [], ◌∷◌,
  if◌then◌else◌, ◌==◌, string_comparable, nat_comparable, Assoc, insert, get_elem?, length, atoi,
  Outcome, done, panicked, fatal, ◌>>=◌,
}
use aghast.Base.Int.{ℤ, pos, negsuc}
use aghast.Runtime.{Value, string}
use aghast.Mqtt.{Mqtt, AghastMsg, send_publish}

-- A table [[Scrape]] of the file. The fields with the saved values are the record `Saved`, since they
-- are maps, which a copy of the structure shares.
pub record ScraperT : Type 0 where
  pub name : String
  pub url : String
  pub interval : ℤ
  pub selector : String
  pub attribute : String
  pub indices : List ℤ
  pub subtopics : List String
  pub suffix : String
  pub value_type : String

pub record Saved (F : Type 0) : Type 0 where
  pub strings : List (ℕ × String)
  pub integers : List (ℕ × ℤ)
  pub floats : List (ℕ × F)

pub record Scrapers : Type 0 where
  pub scrape : List ScraperT
  pub scrapers_by_name : Assoc ℕ

-- The loop that compares the lengths: false is the error.
unfoldable pub check_lengths : List ScraperT → Bool
check_lengths [] = true
check_lengths (sc ∷ scs) =
    if length sc.indices == length sc.subtopics then check_lengths scs else false

unfoldable pub index_names : ℕ → List ScraperT → Assoc ℕ → Assoc ℕ
index_names i [] m = m
index_names i (sc ∷ scs) m = index_names (i + 1) scs (insert sc.name i m)

-- none: an error is returned.
unfoldable pub load_config :
    (preprocessed : Option String)
    → (decode : String → Option (List ScraperT)) → Outcome (Option Scrapers)
unfolding check_lengths index_names
load_config none decode = done none
load_config (some text) decode = elim (decode text) [
  | none ↦ fatal
  | some scs ↦
      if check_lengths scs
      then done (some (record { scrape = scs; scrapers_by_name = index_names 0 scs [] }))
      else done none
]

-- `for ind := range scr.Indices`: `ind` counts the positions.
unfoldable pub wanted_from : (ind : ℕ) → List ℤ → (ix : ℕ) → Bool
wanted_from ind [] ix = false
wanted_from ind (i ∷ is) ix = (ind == ix) || wanted_from (ind + 1) is ix

-- strings.TrimSuffix.
unfoldable pub trim_suffix : String → String → String
trim_suffix String.[] suffix = ""
trim_suffix (String.◌∷◌ c s) suffix =
    let rest = trim_suffix s suffix in if String.◌∷◌ c s == suffix then "" else String.◌∷◌ c rest

abbrev pub put {ℓ} : {A : Type ℓ} → ℕ → A → List (ℕ × A) → List (ℕ × A)
put ix v [] = (ix, v) ∷ []
put ix v ((other, held) ∷ m) = if other == ix then (ix, v) ∷ m else (other, held) ∷ put ix v m

-- A slice at an index that may be negative.
abbrev pub elem_at {ℓ} : {A : Type ℓ} → List A → ℤ → Option A
elem_at xs (pos n) = get_elem? xs n
elem_at xs (negsuc n) = none

abbrev pub or_panic {ℓ} : {A : Type ℓ} → Option A → Outcome A
or_panic none = panicked
or_panic (some a) = done a

abbrev pub trimmed : (suffix : String) → String → String
trimmed suffix a = if suffix == "" then a else trim_suffix a suffix

abbrev pub message_for : {F : Type 0} → (name subtopic payload : String) → AghastMsg (Value F)
message_for name subtopic payload = record {
  subtopic = String.◌++◌ "/scraper/" (String.◌++◌ name (String.◌++◌ "/" subtopic));
  qos = 0;
  retained = true;
  payload = string payload;
}

module _ {F : Type 0} (parse_float : String → Option F) where
  abbrev pub save_float : ℕ → Option F → Saved F → Saved F
  save_float ix none saved = saved
  save_float ix (some x) saved = record saved { floats = put ix x saved.floats }

  abbrev pub save_integer : ℕ → Option ℤ → Saved F → Saved F
  save_integer ix none saved = saved
  save_integer ix (some n) saved = record saved { integers = put ix n saved.integers }

  -- The switch on the type; ParseInt(a, 10, 0) accepts what Atoi accepts.
  abbrev pub save : (value_type : String) → ℕ → String → Saved F → Saved F
  save value_type ix a saved =
      if value_type == "float"
      then save_float ix (parse_float a) saved
      else if value_type == "integer"
      then save_integer ix (atoi a) saved
      else if value_type == "string"
      then record saved { strings = put ix a saved.strings }
      else saved

  -- The callback for the element number ix.
  unfoldable pub on_element :
      ScraperT
      → (ix : ℕ) → (attr : String) → Saved F × Mqtt (Value F)
      → Outcome (Saved F × Mqtt (Value F))
  unfolding wanted_from trim_suffix
  on_element scr ix attr (saved, mq) =
      let a = trimmed scr.suffix attr in
      if wanted_from 0 scr.indices ix
      then (do
        i ← or_panic (elem_at scr.indices (pos ix))
        subtopic ← or_panic (elem_at scr.subtopics i)
        sent ← send_publish (message_for scr.name subtopic a) mq
        done (save scr.value_type ix a saved, sent))
      else done (saved, mq)

  -- ForEach over the elements of one page.
  unfoldable pub on_page :
      ScraperT
      → (ix : ℕ) → List String
      → Saved F × Mqtt (Value F)
      → Outcome (Saved F × Mqtt (Value F))
  unfolding on_element
  on_page scr ix [] s = done s
  on_page scr ix (attr ∷ attrs) s = do s' ← on_element scr ix attr s; on_page scr (ix + 1) attrs s'

  -- The goroutine: one page for each tick (without elements, if it cannot be got). Between two of them
  -- the connection's own goroutines empty the channel.
  unfoldable pub run_scraper :
      ScraperT
      → (pages : List (List String)) → (between : Mqtt (Value F) → Mqtt (Value F))
      → Saved F × Mqtt (Value F)
      → Outcome (Saved F × Mqtt (Value F))
  unfolding on_page
  run_scraper scr [] between s = done s
  run_scraper scr (page ∷ pages) between s = do
    (saved, mq) ← on_page scr 0 page s
    run_scraper scr pages between (saved, between mq)

-- Start: a goroutine for each table begins.
pub start : Scrapers → StopChans → StopChans
unfolding begin_each
start s chs = begin_each (length s.scrape) chs

pub stop : StopChans → Outcome StopChans
unfolding stop_each
stop chs = stop_each chs
