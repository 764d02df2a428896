-- ===== src/Mqtt2smtp/Tests.antt =====
-- The mail gateway at concrete inputs.
use aghast.Base.{
  ℕ, ◌≡◌, refl, String, false, Option, none, some, List, [], ◌∷◌, inl, map, if◌then◌else◌, ◌==◌,
  string_comparable, Assoc, lookup, done,
}
use aghast.Runtime.{Value, string}
use aghast.Mqtt.{GeneralMsg}
use aghast.Loggers.Extraction.{arrived}
use aghast.Mqtt2smtp.{Account, mail_for, on_messages}
use aghast.Mqtt2smtp.Letters.{Request, letter, incomplete, Asks, on_messages_lem}

abbrev account : Account
account = record {
  smtp_host = "smtp.example.org";
  smtp_port = "587";
  smtp_user = "house";
  smtp_password = "secret";
}

abbrev fields : Assoc (Value ℕ)
fields =
    ("To", string "me@example.org")
    ∷ ("Subject", string "Tick-tock")
    ∷ ("Message", string "A minute")
    ∷ []

abbrev parse : String → Option (Assoc (Value ℕ))
parse t = if t == "{full}" then some fields else none

abbrev full : GeneralMsg String
full = record { topic = "aghast/mqtt2smtp/send"; qos = 0; retained = false; payload = "{full}" }

abbrev broken : GeneralMsg String
broken = record { topic = "aghast/mqtt2smtp/send"; qos = 0; retained = false; payload = "{" }

full-Asks : Asks parse account full (letter "me@example.org" "Tick-tock" "A minute")
unfolding lookup
full-Asks = (fields, refl, refl, refl, refl)

abbrev requests : List (GeneralMsg String × Request)
requests = (broken, incomplete) ∷ (full, letter "me@example.org" "Tick-tock" "A minute") ∷ []

on_messages_lem_example :
    on_messages parse account (map (λ (msg, request). arrived msg) requests) []
    ≡ done (mail_for account "me@example.org" "Tick-tock" "A minute" ∷ [])
on_messages_lem_example = on_messages_lem parse account requests [] (inl refl, (full-Asks, tt))
