-- ===== src/Mqtt2smtp/Letters.antt =====
-- Which mails are sent.
use aghast.Base.{
  ◌≡◌, refl, ap, ◌∙◌, sym, String, Option, none, some, List, [], ◌∷◌, ◌++◌, ◌⊎◌, inl, inr, map,
  Assoc, lookup, Option-cases, All, done, ◌>>=◌,
}
use mathlib.Core.List.{append_assoc, append-nil}
use aghast.Runtime.{Value, string}
use aghast.Mqtt.{GeneralMsg}
use aghast.Loggers.Extraction.{arrived}
use aghast.Mqtt2smtp.{Account, Mail, mail_for, on_message, on_messages}

-- A message that asks for a mail, or one that is not JSON or lacks a field.
pub data Request : Type 0 where
  letter : (to subject body : String) → Request
  incomplete : Request

module _ {F : Type 0} (unmarshal : String → Option (Assoc (Value F))) (account : Account) where
  abbrev pub Lacks : Assoc (Value F) → Type 0
  Lacks json =
      (lookup "To" json ≡ none) ⊎ ((lookup "Subject" json ≡ none) ⊎ (lookup "Message" json ≡ none))

  abbrev pub Asks : GeneralMsg String → Request → Type 0
  Asks msg (letter to subject body) =
      (json : Assoc (Value F)) × (unmarshal msg.payload ≡ some json)
      × (lookup "To" json ≡ some (string to))
      × (lookup "Subject" json ≡ some (string subject))
      × (lookup "Message" json ≡ some (string body))
  Asks msg incomplete =
      (unmarshal msg.payload ≡ none)
      ⊎ ((json : Assoc (Value F)) × (unmarshal msg.payload ≡ some json) × Lacks json)

  abbrev pub mails_for : List (GeneralMsg String × Request) → List Mail
  mails_for [] = []
  mails_for ((msg, letter to subject body) ∷ rest) =
      mail_for account to subject body ∷ mails_for rest
  mails_for ((msg, incomplete) ∷ rest) = mails_for rest

  sends :
      (msg : GeneralMsg String) (to subject body : String) (mails : List Mail)
      → Asks msg (letter to subject body)
      → on_message unmarshal account (arrived msg) mails
        ≡ done (mails ++ mail_for account to subject body ∷ [])
  unfolding on_message
  sends msg to subject body mails (json, parsed, at_to, at_subject, at_body) =
      rw (on_message, parsed, at_to, at_subject, at_body) refl

  passes_over :
      (msg : GeneralMsg String) (mails : List Mail)
      → Asks msg incomplete
      → on_message unmarshal account (arrived msg) mails ≡ done mails
  unfolding on_message
  passes_over msg mails (inl bad) = rw (on_message, bad) refl
  passes_over msg mails (inr (json, parsed, lacks)) = elim (Option-cases (lookup "To" json)) [
    | inl a ↦ rw (on_message, parsed, a) refl
    | inr (to, a) ↦ elim (Option-cases (lookup "Subject" json)) [
      | inl b ↦ rw (on_message, parsed, a, b) refl
      | inr (subject, b) ↦ elim (Option-cases (lookup "Message" json)) [
        | inl c ↦ rw (on_message, parsed, a, b, c) refl
        | inr (body, c) ↦ absurd (has_all json to subject body a b c lacks)
      ]
    ]
  ]
    where
      has_all :
          (json : Assoc (Value F)) (to subject body : Value F)
          → lookup "To" json ≡ some to
          → lookup "Subject" json ≡ some subject
          → lookup "Message" json ≡ some body
          → Lacks json
          → ⊥
      has_all json to subject body a b c (inl e) = cc
      has_all json to subject body a b c (inr (inl e)) = cc
      has_all json to subject body a b c (inr (inr e)) = cc

  abbrev messages : List (GeneralMsg String × Request) → List (GeneralMsg (Value F))
  messages requests = map (λ (msg, request). arrived msg) requests

  -- On messages that each ask for a mail, with three texts, or are incomplete, the sender goes on, and
  -- hands over the mails that were asked for, in order; an incomplete message costs none of the others.
  pub on_messages_lem :
      (requests : List (GeneralMsg String × Request)) (mails : List Mail)
      → All (λ (msg, request). Asks msg request) requests
      → on_messages unmarshal account (map (λ (msg, request). arrived msg) requests) mails
        ≡ done (mails ++ mails_for requests)
  unfolding on_messages
  on_messages_lem [] mails asks = ap done (sym (append-nil mails))
  on_messages_lem ((msg, letter to subject body) ∷ rest) mails (asked, asks) =
      ap (λ o. o >>= on_messages unmarshal account (messages rest))
        (sends msg to subject body mails asked)
      ∙ on_messages_lem rest (mails ++ mail_for account to subject body ∷ []) asks
      ∙ ap done (append_assoc mails (mail_for account to subject body ∷ []) (mails_for rest))
  on_messages_lem ((msg, incomplete) ∷ rest) mails (asked, asks) =
      ap (λ o. o >>= on_messages unmarshal account (messages rest)) (passes_over msg mails asked)
      ∙ on_messages_lem rest mails asks
