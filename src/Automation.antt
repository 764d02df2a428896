-- ===== src/Automation.antt =====
-- integrations/automation/automation.go: the types. The children model testing a condition,
-- reacting to an event, loading the configuration, and the control of the automations over MQTT.
pub mod Testing
pub mod Actions
pub mod Load
pub mod Control
mod Tests
use aghast.Base.{ℕ, String, Bool, Option, List, Assoc}
use aghast.Runtime.{Value}

-- `Index` is left out: nothing reads or writes it.
pub record Condition (F : Type 0) : Type 0 where
  pub query_topic : String
  pub reply_topic : String
  pub payload : String
  pub key : String
  pub is : String
  pub value : Value F

pub record Action : Type 0 where
  pub topic : String
  pub payload : String

-- `condition` is none where hasCondition is false.
pub record AutomationT (F : Type 0) : Type 0 where
  pub name : String
  pub description : String
  pub enabled : Bool
  pub event_topic : String
  pub condition : Option (Condition F)
  pub actions : Assoc Action
  pub sorted_action_keys : List String
  pub conf_filename : String
