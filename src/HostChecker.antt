-- ===== src/HostChecker.antt =====
-- integrations/hostchecker/hostchecker.go. Reading and decoding the TOML file is left to the caller
-- of `load_config`; the outcome of net.DialTimeout and the times around it are arguments.
pub mod States
pub mod Queries
mod Tests
use aghast.Goroutines.{StopChans, begin_each, stop_each}
use Prim.Native.String
use aghast.Base.{
  ℕ, suc, ◌+◌, ◌-◌, ◌/◌, String, Bool, true, false, not, ◌||◌, Option, none, some, List, [], ◌∷◌,
  if◌then◌else◌, Assoc, lookup, lookup_or, insert, get_elem?, set, length, drop_prefix, Outcome,
  done, length, panicked, fatal, ◌>>=◌,
}
use aghast.Base.Int.{ℤ}
use aghast.Runtime.{Value, string}
use aghast.Mqtt.{Mqtt, AghastMsg, GeneralMsg, send_publish, subscribe_to_topic}

pub record HostCheckerT : Type 0 where
  pub name : String
  pub host : String
  pub label : String
  pub period : ℤ
  pub port : ℤ
  pub alive : Bool
  pub first_check : Bool
  pub response_time : ℕ

pub record Checkers : Type 0 where
  pub checker : List HostCheckerT
  pub checkers_by_name : Assoc ℕ

unfoldable pub index_checkers : ℕ → List HostCheckerT → Assoc ℕ → Assoc ℕ
index_checkers i [] m = m
index_checkers i (c ∷ cs) m = index_checkers (i + 1) cs (insert c.name i m)

-- none: the file cannot be read or decoded.
unfoldable pub load_config : Option (List HostCheckerT) → Outcome Checkers
unfolding index_checkers
load_config none = fatal
load_config (some cs) = done (record { checker = cs; checkers_by_name = index_checkers 0 cs [] })

-- net.DialTimeout: none is an error, and otherwise the nanoseconds it took.
abbrev pub Dial : Type 0
Dial = Option ℕ

abbrev pub bool_text : Bool → String
bool_text true = "true"
bool_text false = "false"

-- `h.Checker[h.checkersByName[hc.Name]] = hc`.
unfoldable pub store : HostCheckerT → Checkers → Outcome Checkers
store hc h =
    let ix = lookup_or 0 hc.name h.checkers_by_name in
    elim (get_elem? h.checker ix) [
      | none ↦ panicked
      | some old ↦ done (record h { checker = set h.checker ix hc })
    ]

module _ (number_text : ℕ → String) {F : Type 0} where
  abbrev pub state_msg : String → Bool → AghastMsg (Value F)
  state_msg name alive = record {
    subtopic = String.◌++◌ "/hostchecker/" (String.◌++◌ name "/state");
    qos = 0;
    retained = true;
    payload = string (bool_text alive);
  }

  abbrev pub latency_msg : String → ℕ → AghastMsg (Value F)
  latency_msg name nanos = record {
    subtopic = String.◌++◌ "/hostchecker/" (String.◌++◌ name "/latency");
    qos = 0;
    retained = true;
    payload = string (number_text (nanos / 1000000));
  }

  -- One check: the messages for the publishing channel, and the checker after it.
  unfoldable pub check : Dial → HostCheckerT → List (AghastMsg (Value F)) × HostCheckerT
  check none hc = (
    (if hc.alive || hc.first_check then state_msg hc.name false ∷ [] else []),
    record hc { alive = false; first_check = false },
  )
  check (some nanos) hc =
      let latency = latency_msg hc.name nanos in
      (
        (if not hc.alive || hc.first_check
            then state_msg hc.name true ∷ latency ∷ []
            else latency ∷ []),
        record hc { alive = true; first_check = false; response_time = nanos },
      )

  unfoldable pub send_all : List (AghastMsg (Value F)) → Mqtt (Value F) → Outcome (Mqtt (Value F))
  send_all [] mq = done mq
  send_all (msg ∷ msgs) mq = do sent ← send_publish msg mq; send_all msgs sent

  -- One round of runChecker, under the mutex.
  unfoldable pub run_check :
      Dial
      → HostCheckerT
      → Checkers
      → Mqtt (Value F)
      → Outcome (HostCheckerT × Checkers × Mqtt (Value F))
  unfolding check send_all store
  run_check dial hc h mq = do
    let (msgs, hc') = check dial hc
    sent ← send_all msgs mq
    h' ← store hc' h
    done (hc', h', sent)

  -- A query for aghast/hostchecker/get/<name>; the answer of the dial is for the checker found.
  unfoldable pub answer_query :
      GeneralMsg (Value F)
      → (HostCheckerT → Dial)
      → Checkers
      → Mqtt (Value F)
      → Outcome (Mqtt (Value F))
  answer_query msg dial h mq = do
    name ← elim (drop_prefix msg.topic "aghast/hostchecker/get/") [
      | none ↦ panicked
      | some n ↦ done n
    ]
    elim (lookup name h.checkers_by_name) [
      | none ↦ done mq
      | some ix ↦ elim (get_elem? h.checker ix) [
        | none ↦ panicked
        | some hc ↦
            send_publish (state_msg hc.name (elim (dial hc) [ none ↦ false | some nanos ↦ true ]))
              mq
      ]
    ]

-- Start: the goroutine for each checker begins, and the one for the queries, which subscribes; its
-- channel has the number that is returned.
unfoldable pub start : {P : Type 0} → Checkers → StopChans × Mqtt P → StopChans × Mqtt P × ℕ
unfolding begin_each
start h (chs, mq) =
    let (subscribed, ch) = subscribe_to_topic "aghast/hostchecker/get/+" mq in
    (begin_each (length h.checker + 1) chs, subscribed, ch)

-- Stop: the goroutines return, that of the queries without unsubscribing.
unfoldable pub stop : {P : Type 0} → StopChans × Mqtt P → Outcome (StopChans × Mqtt P)
unfolding stop_each
stop (chs, mq) = do stopped ← stop_each chs; done (stopped, mq)
