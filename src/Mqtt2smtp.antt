-- ===== src/Mqtt2smtp.antt =====
-- integrations/mqtt2smtp/mqtt2smtp.go. Reading and decoding the TOML file is left to the caller of
-- `load_config`; JSON is an argument. What is handed to smtp.SendMail is a list; its error is only
-- logged.
pub mod Letters
mod Tests
use Prim.Native.String
use aghast.Base.{
  ℕ, String, Bool, true, false, Option, none, some, List, [], ◌∷◌, ◌++◌, Assoc, lookup, Outcome,
  done, fatal, blocked, ◌>>=◌,
}
use aghast.Runtime.{Value, as_bytes, as_string}
use aghast.Mqtt.{Mqtt, GeneralMsg, subscribe_to_topic, unsubscribe_from_topic}

pub record Account : Type 0 where
  pub smtp_host : String
  pub smtp_port : String
  pub smtp_user : String
  pub smtp_password : String

-- none: the file cannot be read, or not decoded.
pub load_config :
    (preprocessed : Option String) → (decode : String → Option Account) → Outcome Account
load_config none decode = fatal
load_config (some text) decode = elim (decode text) [ none ↦ fatal | some account ↦ done account ]

-- What SendMail gets.
pub record Mail : Type 0 where
  pub server : String
  pub from : String
  pub to : String
  pub message : String

abbrev pub send_topic : String
send_topic = "aghast/mqtt2smtp/send"

abbrev pub mail_for : Account → (to subject body : String) → Mail
mail_for account to subject body = record {
  server = String.◌++◌ account.smtp_host (String.◌++◌ ":" account.smtp_port);
  from = account.smtp_user;
  to = to;
  message = String.◌++◌ "Subject: " (String.◌++◌ subject (String.◌++◌ "\n\n" body));
}

module _ {F : Type 0} (unmarshal : String → Option (Assoc (Value F))) (account : Account) where
  -- One message: the mails that were handed over, the new one last.
  unfoldable pub on_message : GeneralMsg (Value F) → List Mail → Outcome (List Mail)
  on_message msg mails = do
    text ← as_bytes msg.payload
    elim (unmarshal text) [
      | none ↦ done mails
      | some json ↦ elim (lookup "To" json) [
        | none ↦ done mails
        | some dest ↦ elim (lookup "Subject" json) [
          | none ↦ done mails
          | some subject ↦ elim (lookup "Message" json) [
            | none ↦ done mails
            | some body ↦ (do
              subject_text ← as_string subject
              body_text ← as_string body
              to ← as_string dest
              done (mails ++ mail_for account to subject_text body_text ∷ []))
          ]
        ]
      ]
    ]

  -- The goroutine's loop.
  unfoldable pub on_messages : List (GeneralMsg (Value F)) → List Mail → Outcome (List Mail)
  unfolding on_message
  on_messages [] mails = done mails
  on_messages (msg ∷ msgs) mails = do next ← on_message msg mails; on_messages msgs next

module _ {P : Type 0} where
  -- Start, once the goroutine has begun: the number of its channel.
  pub start : Mqtt P → Mqtt P × ℕ
  start mq = subscribe_to_topic send_topic mq

  -- Stop: the send waits for ever before the goroutine has made the channel.
  pub stop : (begun : Bool) → (ch : ℕ) → Mqtt P → Outcome (Mqtt P)
  stop false ch mq = blocked
  stop true ch mq = unsubscribe_from_topic send_topic ch mq
