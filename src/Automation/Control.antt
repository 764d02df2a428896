-- ===== src/Automation/Control.antt =====
-- LoadConfig as a whole, Start, Stop, and the goroutine monitorMqtt. A stop channel is its number.
-- A goroutine is in `running` from its launch until it returns; its first act, the subscription, is
-- taken together with its launch. A send on a stop channel, which has no buffer, is taken by the
-- goroutine that listens to it, which then returns; without one the sender waits for ever.
pub mod Consistency
pub mod Toggling
pub mod Launching
pub mod Starting
pub mod Loading
pub mod Switching
mod Tests
use aghast.Base.{
  ℕ, suc, ◌+◌, String, Bool, true, false, not, Option, none, some, List, [], ◌∷◌, ◌++◌, map,
  if◌then◌else◌, ◌==◌, nat_comparable, string_comparable, Assoc, lookup, lookup_or, insert, erase,
  get_elem?, set, split, Outcome, done, panicked, blocked, ◌>>=◌,
}
use aghast.Runtime.{Runtime, Value, bytes, as_bytes}
use aghast.Mqtt.{Mqtt, GeneralMsg, AghastMsg, subscribe_to_topic, send_publish}
use aghast.Automation.{AutomationT}
use aghast.Automation.Load.{Tree, load_files, index_names}

-- A waiter holds the copy of its automation that it was launched with, and its message channel.
pub data Worker (F : Type 0) : Type 0 where
  waiter : AutomationT F → ℕ → Worker F
  monitor : ℕ → Worker F

pub record Control (F : Type 0) : Type 0 where
  pub automations : List (AutomationT F)
  pub by_name : Assoc ℕ
  pub stop_chans : Assoc ℕ
  pub running : List (ℕ × Worker F)  -- by stop channel
  pub next_chan : ℕ
  pub rewritten : List (String × Bool)  -- the calls of config.ChangeEnabled, whose error is only logged
  pub mq : Mqtt (Value F)

module _ {F : Type 0} where
  -- none: the directory cannot be read. The names are indexed only if no file gives an error.
  unfoldable pub load_config :
      Option (List (String × Option (Tree F))) → Control F → Outcome (Control F × Bool)
  unfolding load_files index_names
  load_config none s = done (s, false)
  load_config (some files) s = do
    (autos, ok) ← load_files files s.automations
    if ok
        then done (record s { automations = autos; by_name = index_names 0 autos [] }, true)
        else done (record s { automations = autos; by_name = [] }, false)

  -- `sc := make(chan bool); go a.waitForMqttEvent(sc, auto); a.stopChans[auto.Name] = sc`.
  unfoldable pub launch : AutomationT F → Control F → Control F
  launch auto s =
      let (mq, ch) = subscribe_to_topic auto.event_topic s.mq in
      record s {
        stop_chans = insert auto.name s.next_chan s.stop_chans;
        running = (s.next_chan, waiter auto ch) ∷ s.running;
        next_chan = s.next_chan + 1;
        mq = mq;
      }

  unfoldable pub launch_enabled : List (AutomationT F) → Control F → Control F
  launch_enabled [] s = s
  launch_enabled (auto ∷ autos) s = launch_enabled autos (if auto.enabled then launch auto s else s)

  unfoldable pub launch_monitor : Control F → Control F
  launch_monitor s =
      let (mq, ch) = subscribe_to_topic "aghast/automation/client/#" s.mq in
      record s {
        stop_chans = insert "mqttMonitor" s.next_chan s.stop_chans;
        running = (s.next_chan, monitor ch) ∷ s.running;
        next_chan = s.next_chan + 1;
        mq = mq;
      }

  unfoldable pub start : Mqtt (Value F) → Control F → Control F
  unfolding launch_enabled launch_monitor
  start mq s = launch_monitor (launch_enabled s.automations (record s { mq = mq; stop_chans = [] }))

  unfoldable pub worker_at : ℕ → List (ℕ × Worker F) → Option (Worker F)
  worker_at c [] = none
  worker_at c ((d, w) ∷ ws) = if d == c then some w else worker_at c ws

  unfoldable pub drop_worker : ℕ → List (ℕ × Worker F) → List (ℕ × Worker F)
  drop_worker c [] = []
  drop_worker c ((d, w) ∷ ws) =
      let rest = drop_worker c ws in if d == c then rest else (d, w) ∷ rest

  -- Stop: its caller is none of these goroutines.
  unfoldable pub stop_each : Assoc ℕ → Control F → Outcome (Control F)
  stop_each [] s = done s
  stop_each ((name, c) ∷ rest) s = elim (worker_at c s.running) [
    | none ↦ blocked
    | some w ↦ stop_each rest (record s { running = drop_worker c s.running })
  ]

  unfoldable pub stop : Control F → Outcome (Control F)
  unfolding stop_each
  stop s = stop_each s.stop_chans s

  -- The monitor cannot take what it sends itself, and a missing stop channel is nil.
  unfoldable pub stop_waiter : String → Control F → Outcome (Control F)
  stop_waiter name s = elim (lookup name s.stop_chans) [
    | none ↦ blocked
    | some c ↦ elim (worker_at c s.running) [
      | some (waiter auto ch) ↦
          done
            (record s { running = drop_worker c s.running; stop_chans = erase name s.stop_chans })
      | some (monitor ch) ↦ blocked
      | none ↦ blocked
    ]
  ]

  unfoldable pub switch : Bool → AutomationT F → String → Control F → Outcome (Control F)
  switch true auto name s = done (launch auto s)
  switch false auto name s = stop_waiter name s

  abbrev pub toggle : AutomationT F → AutomationT F
  toggle auto = record auto { enabled = not auto.enabled }

  -- The flag in memory, and the line in the file.
  abbrev pub toggle_at : ℕ → AutomationT F → Control F → Control F
  toggle_at ix auto s = record s {
    automations = set s.automations ix (toggle auto);
    rewritten = s.rewritten ++ (auto.conf_filename, not auto.enabled) ∷ [];
  }

  unfoldable pub change_at : String → ℕ → Control F → Outcome (Control F)
  unfolding switch launch stop_waiter
  change_at name ix s = elim (get_elem? s.automations ix) [
    | none ↦ panicked
    | some auto ↦ switch (not auto.enabled) (toggle auto) name (toggle_at ix auto s)
  ]

  -- The request changeEnabled. A name that is not in the map reads index 0.
  unfoldable pub change_enabled : String → Control F → Outcome (Control F)
  unfolding change_at
  change_enabled name s = change_at name (lookup_or 0 name s.by_name) s

abbrev pub list_entry : {F : Type 0} → AutomationT F → String × String × Bool
list_entry auto = (auto.name, auto.description, auto.enabled)

module _ (rt : Runtime) where
  open rt use {Float, marshal_list}

  -- The request list.
  unfoldable pub list_automations : Control Float → Outcome (Control Float)
  list_automations s = do
    let reply : AghastMsg (Value Float) = record {
      subtopic = "/automation/list";
      qos = 0;
      retained = false;
      payload = bytes (marshal_list (map list_entry s.automations));
    }
    mq ← send_publish reply s.mq
    done (record s { mq = mq })

  -- One message of the monitor: aghast/automation/client/<action>.
  unfoldable pub on_request : GeneralMsg (Value Float) → Control Float → Outcome (Control Float)
  unfolding change_enabled list_automations
  on_request msg s = do
    payload ← as_bytes msg.payload
    elim (get_elem? (split b'/' msg.topic) 3) [
      | none ↦ done s
      | some action ↦
          if action == "changeEnabled"
          then change_enabled payload s
          else if action == "list"
          then list_automations s
          else done s
    ]
