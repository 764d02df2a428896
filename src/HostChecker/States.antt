-- ===== src/HostChecker/States.antt =====
-- What a checker publishes over a number of checks.
use aghast.Base.{
  ℕ, ◌≡◌, refl, sym, ap, ◌∙◌, String, Bool, true, false, not, ◌||◌, Option, none, some, List, [],
  ◌∷◌, ◌++◌, if◌then◌else◌,
}
use mathlib.Core.List.{append-nil}
use aghast.Runtime.{Value}
use aghast.Mqtt.{AghastMsg}
use aghast.HostChecker.{HostCheckerT, Dial, state_msg, latency_msg, check}

abbrev pub eq_bool : Bool → Bool → Bool
eq_bool true b = b
eq_bool false b = not b

abbrev pub is_up : Dial → Bool
is_up none = false
is_up (some nanos) = true

abbrev pub said_by : HostCheckerT → Option Bool
said_by hc = if hc.first_check then none else some hc.alive

module _ (number_text : ℕ → String) {F : Type 0} where
  -- The checks of one goroutine, one after the other.
  abbrev pub messages : List Dial → HostCheckerT → List (AghastMsg (Value F))
  messages [] hc = []
  messages (dial ∷ dials) hc =
      let (msgs, hc') = check number_text dial hc in msgs ++ messages dials hc'

  -- The specification: what was announced last, if anything, decides on the next announcement.
  abbrev pub announcement : String → Option Bool → Bool → List (AghastMsg (Value F))
  announcement name none up = state_msg number_text name up ∷ []
  announcement name (some said) up =
      if eq_bool said up then [] else state_msg number_text name up ∷ []

  abbrev pub latency : String → Dial → List (AghastMsg (Value F))
  latency name none = []
  latency name (some nanos) = latency_msg number_text name nanos ∷ []

  abbrev pub announced : String → Option Bool → List Dial → List (AghastMsg (Value F))
  announced name said [] = []
  announced name said (dial ∷ dials) =
      announcement name said (is_up dial)
      ++ latency name dial
      ++ announced name (some (is_up dial)) dials

  one_down :
      (name : String) (alive first_check : Bool)
      → (if alive || first_check then state_msg number_text name false ∷ [] else [])
        ≡ announcement name (if first_check then none else some alive) false
  one_down name true true = refl
  one_down name true false = refl
  one_down name false true = refl
  one_down name false false = refl

  one_up :
      (name : String) (alive first_check : Bool) (l : AghastMsg (Value F))
      → (if not alive || first_check then state_msg number_text name true ∷ l ∷ [] else l ∷ [])
        ≡ announcement name (if first_check then none else some alive) true ++ l ∷ []
  one_up name true true l = refl
  one_up name true false l = refl
  one_up name false true l = refl
  one_up name false false l = refl

  step :
      (dial : Dial) (hc : HostCheckerT) (dials : List Dial)
      → let (msgs, hc') = check number_text dial hc in
        msgs ++ announced hc'.name (said_by hc') dials
        ≡ announced hc.name (said_by hc) (dial ∷ dials)
  unfolding check
  step none hc dials =
      ap (λ m. m ++ announced hc.name (some false) dials)
        (one_down hc.name hc.alive hc.first_check
          ∙ sym (append-nil (announcement hc.name (said_by hc) false)))
  step (some nanos) hc dials =
      ap (λ m. m ++ announced hc.name (some true) dials)
        (one_up hc.name hc.alive hc.first_check (latency_msg number_text hc.name nanos))

  -- Over any sequence of dials a checker publishes its host's state at the first check and whenever
  -- it differs from the state published last, and at no other check, and the latency at each check
  -- that reaches the host.
  pub messages_lem :
      (dials : List Dial) (hc : HostCheckerT)
      → messages dials hc ≡ announced hc.name (said_by hc) dials
  unfolding check
  messages_lem [] hc = refl
  messages_lem (dial ∷ dials) hc =
      ap (λ r. (check number_text dial hc).0 ++ r)
        (messages_lem dials (check number_text dial hc).1)
      ∙ step dial hc dials
