-- ===== src/Usage/Ingestion.antt =====
-- backend/harness/services/usage.py: `ingest` and `ingest_master`. What the store has of the instance or
-- of the task is an argument.
use agentic_design_harness.Common.{
  ltb, eqb, if◌then◌else◌, length, find?, keep, count, elem, Code, Outcome, ok, err, fault, guard,
  require, ◌>>◌, Dict, lookup, insert, values, index_onto, index_by, ℕ, String, Bool, not, Option,
  none, some, List, [], ◌∷◌, ◌==◌,
}
use agentic_design_harness.Model.{master}
use agentic_design_harness.Storage.Identifier.{validate_identifier}
use agentic_design_harness.Usage.{
  UsageEvent, Reporter, Completeness, not_reported, in_part, complete, Entry, Meter, event_key,
  or_else, is_terminal_instance, last_id, reported_by, validate_event, validate_master_event,
  stage_batch, append_staged,
}

-- What an ingestion answers.
pub record Receipt : Type 0 where
  pub accepted : ℕ
  pub duplicates : ℕ
  pub completeness : Completeness
  pub cursor : Option String

abbrev pub completeness_of : ℕ → Bool → Completeness
completeness_of seen done = if eqb seen 0 then not_reported else if done then complete else in_part

abbrev pub prior_cursor : Option Entry → Option String
prior_cursor none = none
prior_cursor (some entry) = entry.cursor

-- The dictionary of events after an ingestion.
abbrev pub known_events : List UsageEvent → Dict UsageEvent → Dict UsageEvent
known_events events staged = index_onto event_key (index_by event_key events) (values staged)

abbrev pub flag_or : Bool → Option Bool → Bool
flag_or other none = other
flag_or other (some flag) = flag

-- A call of `ingest`.
pub record Batch : Type 0 where
  pub events : List UsageEvent
  pub source : String
  pub cursor : Option String
  pub collection_complete : Option Bool

-- The entry of the collection state after an ingestion.
abbrev pub entry_after : Reporter → Batch → Meter → Dict UsageEvent → Entry
entry_after instance batch meter staged =
    let seen =
      count (reported_by instance.instance_id) (values (known_events meter.events staged)) in
    record {
      agent_type = instance.agent_type;
      status =
          completeness_of seen
            (flag_or (is_terminal_instance instance.status) batch.collection_complete);
      event_count = seen;
      cursor =
          or_else (or_else batch.cursor (last_id batch.events))
            (prior_cursor (lookup instance.instance_id meter.collection));
      source = batch.source;
    }

-- The entry of the master after its usage was ingested.
abbrev pub master_entry : String → Meter → Dict UsageEvent → Entry
master_entry master_id meter staged =
    let own = keep (reported_by master_id) (values (known_events meter.events staged)) in
    record {
      agent_type = master;
      status = in_part;
      event_count = length own;
      cursor = last_id own;
      source = "internal";
    }

-- What a model call of the master reports, and the event made of it.
pub record ModelResult : Type 0 where
  pub model : String
  pub call_type : String
  pub input_tokens : ℕ
  pub output_tokens : ℕ
  pub cached_input_tokens : ℕ
  pub reasoning_tokens : ℕ
  pub total_tokens : ℕ

abbrev pub master_event : String → String → String → String → ModelResult → UsageEvent
master_event event_id task_id master_id hour result = record {
  event_id = event_id;
  task_id = task_id;
  instance_id = master_id;
  agent_type = master;
  model = result.model;
  call_type = result.call_type;
  hour = hour;
  input_tokens = result.input_tokens;
  output_tokens = result.output_tokens;
  cached_input_tokens = result.cached_input_tokens;
  reasoning_tokens = result.reasoning_tokens;
  total_tokens = result.total_tokens;
  cost_micros = none;
  price_catalog_revision = "";
}

module _ (contract : UsageEvent → Outcome (Unit {0})) (digest : UsageEvent → String) where
  -- What comes after the appends: the collection state is written.
  abbrev pub close_batch :
      String
      → Entry
      → Meter
      → Dict UsageEvent × ℕ
      → Outcome (Unit {0}) × List UsageEvent
      → Outcome Receipt × Meter
  close_batch instance_id entry meter (staged, duplicates) (ok _, events) = (
    ok (record {
      accepted = length (values staged);
      duplicates = duplicates;
      completeness = entry.status;
      cursor = entry.cursor;
    }),
    record { events = events; collection = insert instance_id entry meter.collection },
  )
  close_batch instance_id entry meter counts (err code, events) =
      (err code, record meter { events = events })
  close_batch instance_id entry meter counts (fault x, events) =
      (fault x, record meter { events = events })

  abbrev pub store_batch :
      String
      → (Dict UsageEvent → Entry)
      → Meter
      → Outcome (Dict UsageEvent × ℕ)
      → Outcome Receipt × Meter
  store_batch instance_id entry_of meter (ok counts) =
      close_batch instance_id (entry_of counts.0) meter counts
        (append_staged contract digest (values counts.0) meter.events)
  store_batch instance_id entry_of meter (err code) = (err code, meter)
  store_batch instance_id entry_of meter (fault x) = (fault x, meter)

  -- The batch is checked as a whole, and then stored.
  abbrev pub run_batch :
      (UsageEvent → Outcome (Unit {0}))
      → String
      → (Dict UsageEvent → Entry)
      → List UsageEvent
      → Meter
      → Outcome Receipt × Meter
  run_batch validate instance_id entry_of events meter =
      store_batch instance_id entry_of meter
        (stage_batch contract digest validate (index_by event_key meter.events) [] 0 events)

  abbrev pub check_batch : String → String → Batch → Outcome (Unit {0})
  check_batch task_id instance_id batch = do
    validate_identifier task_id
    validate_identifier instance_id
    guard (elem batch.source ("adapter" ∷ "internal" ∷ [])) Code.validation_error
    guard (not (ltb 10000 (length batch.events))) Code.validation_error

  abbrev pub find_reporter : String → Batch → String → Option Reporter → Outcome Reporter
  find_reporter task_id batch instance_id instance = do
    check_batch task_id instance_id batch
    require instance Code.instance_not_found

  abbrev pub ingest_found : String → Batch → Meter → Outcome Reporter → Outcome Receipt × Meter
  ingest_found task_id batch meter (ok instance) =
      run_batch (validate_event contract digest task_id instance) instance.instance_id
        (entry_after instance batch meter) batch.events meter
  ingest_found task_id batch meter (err code) = (err code, meter)
  ingest_found task_id batch meter (fault x) = (fault x, meter)

  -- `ingest`, of the instance that `_instance` finds under the id
  unfoldable pub ingest :
      String → String → Option Reporter → Batch → Meter → Outcome Receipt × Meter
  unfolding stage_batch append_staged
  ingest task_id instance_id instance batch meter =
      ingest_found task_id batch meter (find_reporter task_id batch instance_id instance)

  -- `ingest_master`, of a task that the store may not have
  abbrev pub master_admitted : String → Bool → Outcome (Unit {0})
  master_admitted task_id task_exists = do
    validate_identifier task_id
    guard task_exists Code.task_not_found

  abbrev pub ingest_admitted :
      String → String → List UsageEvent → Meter → Outcome (Unit {0}) → Outcome Receipt × Meter
  ingest_admitted task_id master_id events meter (ok _) =
      run_batch (validate_master_event contract digest task_id master_id) master_id
        (master_entry master_id meter) events meter
  ingest_admitted task_id master_id events meter (err code) = (err code, meter)
  ingest_admitted task_id master_id events meter (fault x) = (fault x, meter)

  unfoldable pub ingest_master :
      String → Bool → String → List UsageEvent → Meter → Outcome Receipt × Meter
  unfolding stage_batch append_staged
  ingest_master task_id task_exists master_id events meter =
      ingest_admitted task_id master_id events meter (master_admitted task_id task_exists)

  -- `record_master_model_call`, with the event id that the digest of the call gives
  unfoldable pub record_master_model_call :
      String → Bool → String → String → String → ModelResult → Meter → Outcome Receipt × Meter
  unfolding ingest_master
  record_master_model_call task_id task_exists master_id event_id hour result meter =
      elim (find? (λ (e : UsageEvent). e.event_id == event_id) meter.events) [
        | none ↦
            ingest_master task_id task_exists master_id
              (master_event event_id task_id master_id hour result ∷ []) meter
        | some existing ↦ ingest_master task_id task_exists master_id (existing ∷ []) meter
      ]
