-- ===== src/Usage.antt =====
-- backend/harness/services/usage.py: the usage events of a task and their ingestion, and
-- `UsageRepository.append` of storage/repository.py. The contract of an event, the digest of one and the
-- id of the master's instance are parameters. Times and the fields that are only carried are left out.
pub mod Ingestion
pub mod Ledger
pub mod Summary
pub mod Totals
pub mod Recovery
pub mod Metered
use agentic_design_harness.Common.{
  ltb, eqb, if◌then◌else◌, any, elem, Code, validation_error, idempotency_conflict, runtime_error,
  Outcome, ok, err, fault, guard, ◌>>=◌, ◌>>◌, Dict, lookup, insert, ℕ, ◌+◌, String, Bool, true,
  false, ◌&&◌, not, Option, none, some, List, [], ◌∷◌, ◌++◌, ◌==◌,
}
use agentic_design_harness.Status.{
  Status, failed, succeeded, cancelled, archived, unavailable, failed_to_start, crashed, superseded,
  member,
}
use agentic_design_harness.Model.{AgentType, master, same_type}

pub record UsageEvent : Type 0 where
  pub event_id : String
  pub task_id : String
  pub instance_id : String
  pub agent_type : AgentType
  pub model : String
  pub call_type : String
  pub hour : String
  pub input_tokens : ℕ
  pub output_tokens : ℕ
  pub cached_input_tokens : ℕ
  pub reasoning_tokens : ℕ
  pub total_tokens : ℕ
  pub cost_micros : Option ℕ
  pub price_catalog_revision : String

-- The instance whose usage is reported.
pub record Reporter : Type 0 where
  pub instance_id : String
  pub agent_type : AgentType
  pub status : Status

pub data Completeness : Type 0 where
  not_reported in_part complete : Completeness

-- An entry of the collection state.
pub record Entry : Type 0 where
  pub agent_type : AgentType
  pub status : Completeness
  pub event_count : ℕ
  pub cursor : Option String
  pub source : String

-- What is stored of a task's usage.
pub record Meter : Type 0 where
  pub events : List UsageEvent
  pub collection : Dict Entry

-- The checks of the amounts that both validations end with.
unfoldable pub check_amounts : UsageEvent → Outcome (Unit {0})
check_amounts e = do
  guard (eqb e.total_tokens (e.input_tokens + e.output_tokens)) Code.validation_error
  guard (not (ltb e.input_tokens e.cached_input_tokens)) Code.validation_error
  guard (not (ltb e.output_tokens e.reasoning_tokens)) Code.validation_error

abbrev pub event_key : UsageEvent → String
event_key e = e.event_id

abbrev pub or_else {ℓ} : {A : Type ℓ} → Option A → Option A → Option A
or_else none other = other
or_else (some a) other = some a

-- `_TERMINAL_INSTANCE_STATUSES`
abbrev pub is_terminal_instance : Status → Bool
is_terminal_instance status = member status (
    succeeded ∷ failed ∷ failed_to_start ∷ crashed ∷ cancelled ∷ superseded ∷ archived ∷ unavailable
    ∷ [])

abbrev pub last_id : List UsageEvent → Option String
last_id [] = none
last_id (e ∷ []) = some e.event_id
last_id (e ∷ f ∷ es) = last_id (f ∷ es)

abbrev pub reported_by : String → UsageEvent → Bool
reported_by id e = e.instance_id == id

module _ (contract : UsageEvent → Outcome (Unit {0})) (digest : UsageEvent → String) where
  -- `_validate_event`
  unfoldable pub validate_event : String → Reporter → UsageEvent → Outcome (Unit {0})
  unfolding check_amounts
  validate_event task_id instance e = do
    contract e
    guard ((e.task_id == task_id) && (e.instance_id == instance.instance_id)) Code.validation_error
    guard (same_type e.agent_type instance.agent_type) Code.validation_error
    check_amounts e

  -- `_validate_master_event`
  unfoldable pub validate_master_event : String → String → UsageEvent → Outcome (Unit {0})
  unfolding check_amounts
  validate_master_event task_id master_id e = do
    contract e
    guard ((e.task_id == task_id) && (e.instance_id == master_id) && same_type e.agent_type master)
        Code.validation_error
    guard (elem e.call_type ("reasoning_llm" ∷ "vision_language_model" ∷ [])) Code.validation_error
    check_amounts e

  -- The loop that checks a batch before anything is stored: what is staged, and the duplicates.
  abbrev pub stage_one :
      Dict UsageEvent
      → Option UsageEvent
      → UsageEvent
      → Dict UsageEvent
      → ℕ
      → Outcome (Dict UsageEvent × ℕ)
  stage_one existing none e staged duplicates = ok (insert e.event_id e staged, duplicates)
  stage_one existing (some previous) e staged duplicates = do
    guard (digest previous == digest e) Code.idempotency_conflict
    ok (staged, duplicates + 1)

  unfoldable pub stage_batch :
      (UsageEvent → Outcome (Unit {0}))
      → Dict UsageEvent
      → Dict UsageEvent
      → ℕ
      → List UsageEvent
      → Outcome (Dict UsageEvent × ℕ)
  stage_batch validate existing staged duplicates [] = ok (staged, duplicates)
  stage_batch validate existing staged duplicates (e ∷ batch) = do
    validate e
    next ←
        stage_one existing (or_else (lookup e.event_id staged) (lookup e.event_id existing)) e
          staged duplicates
    stage_batch validate existing next.0 next.1 batch

  -- `UsageRepository.append`: whether the event was new, and the events after it.
  abbrev pub append_checked :
      Outcome (Unit {0}) → UsageEvent → List UsageEvent → Outcome Bool × List UsageEvent
  append_checked (ok _) e events =
      if any (λ (f : UsageEvent). f.event_id == e.event_id) events
      then (ok false, events)
      else (ok true, events ++ e ∷ [])
  append_checked (err code) e events = (err code, events)
  append_checked (fault x) e events = (fault x, events)

  unfoldable pub append_event : UsageEvent → List UsageEvent → Outcome Bool × List UsageEvent
  append_event e events = append_checked (contract e) e events

  -- The appends of a batch; an event that turns out to be there already is a RuntimeError.
  abbrev pub go_on :
      Outcome Bool × List UsageEvent
      → (List UsageEvent → Outcome (Unit {0}) × List UsageEvent)
      → Outcome (Unit {0}) × List UsageEvent
  go_on (ok true, events) next = next events
  go_on (ok false, events) next = (fault runtime_error, events)
  go_on (err code, events) next = (err code, events)
  go_on (fault x, events) next = (fault x, events)

  unfoldable pub append_staged :
      List UsageEvent → List UsageEvent → Outcome (Unit {0}) × List UsageEvent
  unfolding append_event
  append_staged [] events = (ok tt, events)
  append_staged (e ∷ es) events = go_on (append_event e events) (λ next. append_staged es next)
