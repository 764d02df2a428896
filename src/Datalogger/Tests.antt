-- ===== src/Datalogger/Tests.antt =====
-- The CSV logger at concrete inputs; a floating-point number is a natural one.
use aghast.Base.{
  ℕ, ◌≡◌, refl, String, false, none, some, List, [], ◌∷◌, ◌/◌, ◌*◌, ◌%◌, ◌<◌, join, itoa, utf8,
  length, arith, done,
}
use aghast.Base.Int.{pos}
use aghast.Runtime.{Value, bytes}
use aghast.Mqtt.{GeneralMsg}
use aghast.Loggers.{Floats}
use aghast.Datalogger.{LoggerT, Log, row_of, log_messages}
use aghast.Datalogger.Flushing.{empty, IsReadable, log_messages_flushes, log_messages_never}

abbrev floats : Floats ℕ
floats = record {
  unmarshal = λ text. none;
  parse_float = λ text. none;
  zero_float = 0;
  round = λ x. pos x;
  general = λ x. itoa (pos x);
  fixed = λ x. itoa (pos x);
}

abbrev logger : LoggerT
logger = record { log_file = "meter.csv"; topic = "meter"; key = ""; flush_every = pos 2 }

abbrev reading : String × String × GeneralMsg (Value ℕ)
reading = (
  "2021-05-01T12:00:00Z",
  "",
  record { topic = "meter"; qos = 0; retained = false; payload = bytes "42" },
)

abbrev readings : List (String × String × GeneralMsg (Value ℕ))
readings = reading ∷ reading ∷ reading ∷ []

-- The payload is printed as a list of numbers.
abbrev fields : List String
fields = "2021-05-01T12:00:00Z" ∷ "meter" ∷ "" ∷ "[52 50]" ∷ "" ∷ []

reading-IsReadable : IsReadable floats logger reading
unfolding row_of join itoa utf8
reading-IsReadable = (fields, refl)

log_messages_flushes_example :
    (log : Log) × (log_messages floats logger readings empty ≡ done (some log))
    × (length log.rows ≡ 3)
    × (log.flushed ≡ 3 / 2 * 2)
    × (log.unflushed ≡ pos (3 % 2))
    × (3 % 2 < 2)
log_messages_flushes_example =
    log_messages_flushes floats logger 2 readings refl (omega arith) (omega arith)
      (reading-IsReadable, (reading-IsReadable, (reading-IsReadable, tt)))

abbrev lazy_logger : LoggerT
lazy_logger = record logger { flush_every = pos 0 }

lazy-IsReadable : IsReadable floats lazy_logger reading
unfolding row_of join itoa utf8
lazy-IsReadable = (fields, refl)

log_messages_never_instance :
    (log : Log) × (log_messages floats lazy_logger readings empty ≡ done (some log))
    × (length log.rows ≡ 3)
    × (log.flushed ≡ 0)
log_messages_never_instance =
    log_messages_never floats lazy_logger readings refl
      (lazy-IsReadable, (lazy-IsReadable, (lazy-IsReadable, tt))) (omega arith)
