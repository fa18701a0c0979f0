-- ===== src/Model.antt =====
-- The records of a saved plan, as backend/harness/domain reads and writes them. Fields that the
-- domain layer only carries along are left out; times are numbers.
use agentic_design_harness.Common.{ℕ, Bool, String, List, Option}
use agentic_design_harness.Status.{Status}

pub data AgentType : Type 0 where
  general image ppt master : AgentType

pub record Authorization : Type 0 where
  pub authorization_id : String
  pub authorized_at : ℕ
  pub authorized_by_type : String
  pub authorized_by_id : String
  pub plan_revision : ℕ
  pub reason : String

pub record Lifecycle : Type 0 where
  pub original_required : Bool
  pub first_activated_at : Option ℕ
  pub authorized_downgrade : Option Authorization

pub record Task : Type 0 where
  pub task_id : String
  pub title : String
  pub start_policy : String
  pub input_manifest : String
  pub status : Status
  pub created_at : ℕ
  pub updated_at : ℕ
  pub plan_revision : ℕ

pub record Stage : Type 0 where
  pub stage_id : String
  pub task_id : String
  pub type : AgentType
  pub position : ℕ
  pub depends_on : List String
  pub instance_ids : List String
  pub required : Bool
  pub requirement_lifecycle : Lifecycle
  pub status : Status

pub record Instance : Type 0 where
  pub instance_id : String
  pub task_id : String
  pub stage_id : String
  pub agent_type : AgentType
  pub required : Bool
  pub requirement_lifecycle : Lifecycle
  pub status : Status
  pub manual_finished : Bool
  pub manual_business_status : Option String
  pub approval_mode : String
  pub delivery_rejection : Option String
  pub created_at : ℕ

pub record Card : Type 0 where
  pub card_id : String
  pub task_id : String
  pub stage_id : String
  pub instance_id : String
  pub agent_type : AgentType
  pub revision : ℕ
  pub created_at : ℕ

pub record Plan : Type 0 where
  pub task : Task
  pub stages : List Stage
  pub instances : List Instance
  pub task_cards : List Card

unfoldable pub same_type : AgentType → AgentType → Bool
same_type general general = Bool.true
same_type image image = Bool.true
same_type ppt ppt = Bool.true
same_type master master = Bool.true
same_type _ _ = Bool.false

-- The names of the agent types.
unfoldable pub agent_name : AgentType → String
agent_name general = "general"
agent_name image = "image"
agent_name ppt = "ppt"
agent_name master = "master"
