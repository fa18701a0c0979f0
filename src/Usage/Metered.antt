-- ===== src/Usage/Metered.antt =====
-- backend/harness/services/usage.py: what is stored of a task's usage after any history of ingestions and
-- recoveries.
use agentic_design_harness.Common.{
  Outcome, ok, err, fault, >>=-eq-ok, ok_inj, Dict, values, index_by, ℕ, String, ◌≡◌, refl, subst,
  Bool, Option, List, [],
}
use agentic_design_harness.Model.{AgentType}
use agentic_design_harness.Usage.{
  UsageEvent, Reporter, Entry, Meter, event_key, validate_event, validate_master_event, stage_batch,
  append_staged,
}
use agentic_design_harness.Usage.Ingestion.{
  Batch, entry_after, master_entry, close_batch, store_batch, find_reporter, ingest_found, ingest,
  master_admitted, ingest_admitted, ingest_master,
}
use agentic_design_harness.Usage.Ledger.{
  IsAccounted, IsLedger, append_staged-IsLedger, stage_batch-AllAccounted,
  validate_event-IsAccounted, validate_master_event-IsAccounted,
}
use agentic_design_harness.Usage.Recovery.{counts_onto, last_ids_onto, repair_counts, recover_usage}

module _ (contract : UsageEvent → Outcome (Unit {0})) (digest : UsageEvent → String) where
  close_batch-IsLedger :
      (id : String) (entry : Entry) (meter : Meter) (counts : Dict UsageEvent × ℕ)
      (ran : Outcome (Unit {0}) × List UsageEvent)
      → IsLedger ran.1
      → IsLedger (close_batch contract digest id entry meter counts ran).1.events
  close_batch-IsLedger id entry meter counts (ok _, events) l = l
  close_batch-IsLedger id entry meter counts (err code, events) l = l
  close_batch-IsLedger id entry meter counts (fault x, events) l = l

  store_batch-IsLedger :
      (validate : UsageEvent → Outcome (Unit {0})) (id : String)
      (entry_of : Dict UsageEvent → Entry) (events : List UsageEvent) (meter : Meter)
      (o : Outcome (Dict UsageEvent × ℕ))
      → ((e : UsageEvent) → validate e ≡ ok tt → IsAccounted e)
      → stage_batch contract digest validate (index_by event_key meter.events) [] 0 events ≡ o
      → IsLedger meter.events
      → IsLedger (store_batch contract digest id entry_of meter o).1.events
  unfolding values
  store_batch-IsLedger validate id entry_of events meter (ok counts) v e l =
      close_batch-IsLedger id (entry_of counts.0) meter counts
        (append_staged contract digest (values counts.0) meter.events)
        (append_staged-IsLedger contract digest (values counts.0) meter.events
          (stage_batch-AllAccounted contract digest validate (index_by event_key meter.events) [] 0
            events counts v tt e)
          l)
  store_batch-IsLedger validate id entry_of events meter (err code) v e l = l
  store_batch-IsLedger validate id entry_of events meter (fault x) v e l = l

  ingest_found-IsLedger :
      (task_id : String) (batch : Batch) (meter : Meter) (o : Outcome Reporter)
      → IsLedger meter.events
      → IsLedger (ingest_found contract digest task_id batch meter o).1.events
  ingest_found-IsLedger task_id batch meter (ok r) l =
      store_batch-IsLedger (validate_event contract digest task_id r) r.instance_id
        (entry_after r batch meter) batch.events meter _
        (validate_event-IsAccounted contract digest task_id r) refl l
  ingest_found-IsLedger task_id batch meter (err code) l = l
  ingest_found-IsLedger task_id batch meter (fault x) l = l

  ingest_admitted-IsLedger :
      (task_id master_id : String) (events : List UsageEvent) (meter : Meter)
      (o : Outcome (Unit {0}))
      → IsLedger meter.events
      → IsLedger (ingest_admitted contract digest task_id master_id events meter o).1.events
  ingest_admitted-IsLedger task_id master_id events meter (ok _) l =
      store_batch-IsLedger (validate_master_event contract digest task_id master_id) master_id
        (master_entry master_id meter) events meter _
        (validate_master_event-IsAccounted contract digest task_id master_id) refl l
  ingest_admitted-IsLedger task_id master_id events meter (err code) l = l
  ingest_admitted-IsLedger task_id master_id events meter (fault x) l = l

  -- What can be stored of a task's usage.
  pub data Metered : Meter → Type 0 where
    no_events :
        (collection : Dict Entry) → Metered (record { events = []; collection = collection })
    ingested :
        {meter : Meter} (task_id instance_id : String) (instance : Option Reporter) (batch : Batch)
        → Metered meter
        → Metered (ingest contract digest task_id instance_id instance batch meter).1
    ingested_master :
        {meter : Meter} (task_id : String) (task_exists : Bool) (master_id : String)
        (events : List UsageEvent)
        → Metered meter
        → Metered (ingest_master contract digest task_id task_exists master_id events meter).1
    recovered :
        {meter after : Meter} (agent_of : String → Option AgentType)
        → Metered meter
        → recover_usage agent_of meter ≡ ok after
        → Metered after

  -- After any history of ingestions, however they ended, and of recoveries, the usage events of a task
  -- have distinct ids, and in each of them the total is the input and the output, which bound the cached
  -- and the reasoning tokens.
  pub Metered-IsLedger : (meter : Meter) → Metered meter → IsLedger meter.events
  unfolding ingest ingest_master recover_usage
  Metered-IsLedger meter (no_events collection) = record { distinct_ids = refl; accounted = tt }
  Metered-IsLedger after (ingested {meter = meter} task_id instance_id instance batch r) =
      ingest_found-IsLedger task_id batch meter
        (find_reporter contract digest task_id batch instance_id instance)
        (Metered-IsLedger meter r)
  Metered-IsLedger after (ingested_master {meter = meter} task_id exists master_id events r) =
      ingest_admitted-IsLedger task_id master_id events meter
        (master_admitted contract digest task_id exists) (Metered-IsLedger meter r)
  Metered-IsLedger after (recovered {meter = meter} agent_of r h) =
      let last_ids = last_ids_onto [] meter.events in
      let (_, _, e) =
        >>=-eq-ok (repair_counts agent_of last_ids (counts_onto [] meter.events) meter.collection) _
          h in
      subst (λ (m : Meter). IsLedger m.events) (ok_inj e) (Metered-IsLedger meter r)
