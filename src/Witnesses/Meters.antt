-- ===== src/Witnesses/Meters.antt =====
-- The theorems on usage at concrete inputs: a batch that repeats one of its events.
use agentic_design_harness.Common.{
  count, Outcome, ok, lookup, insert, values, index_onto, index_by, String, ◌≡◌, refl, ◌≢◌, Bool,
  Option, none, some, [], ◌∷◌, arith, ◌==◌,
}
use agentic_design_harness.Status.{running, status_code, same_status, member}
use agentic_design_harness.Model.{AgentType, same_type}
use agentic_design_harness.Storage.Identifier.{validate_identifier}
use agentic_design_harness.Usage.{
  UsageEvent, Reporter, in_part, Meter, check_amounts, reported_by, validate_event, stage_batch,
  append_event, append_staged,
}
use agentic_design_harness.Usage.Ledger.{IsLedger}
use agentic_design_harness.Usage.Summary.{summary}
use agentic_design_harness.Usage.Totals.{IsBalanced, summary-IsBalanced}
use agentic_design_harness.Usage.Ingestion.{Batch, ingest}
use agentic_design_harness.Usage.Recovery.{
  add_count, counts_onto, last_ids_onto, repair_count, repair_counts, recover_usage,
}
use agentic_design_harness.Usage.Recovery.Counts.{IsCounted, recover_usage-IsCounted}
use agentic_design_harness.Usage.Metered.{Metered, no_events, ingested, Metered-IsLedger}

abbrev any_event : UsageEvent → Outcome (Unit {0})
any_event _ = ok tt

abbrev id_digest : UsageEvent → String
id_digest e = e.event_id

abbrev first_call : UsageEvent
first_call = record {
  event_id = "u-1";
  task_id = "task-1";
  instance_id = "i-1";
  agent_type = AgentType.image;
  model = "m";
  call_type = "vision_language_model";
  hour = "2026-01-01T10:00:00Z";
  input_tokens = 10;
  output_tokens = 5;
  cached_input_tokens = 2;
  reasoning_tokens = 1;
  total_tokens = 15;
  cost_micros = some 7;
  price_catalog_revision = "p-1";
}

abbrev reporter : Reporter
reporter = record { instance_id = "i-1"; agent_type = AgentType.image; status = running }

abbrev twice : Batch
twice = record {
  events = first_call ∷ first_call ∷ [];
  source = "internal";
  cursor = none;
  collection_complete = none;
}

abbrev no_usage : Meter
no_usage = record { events = []; collection = [] }

abbrev metered : Meter
metered = (ingest any_event id_digest "task-1" "i-1" (some reporter) twice no_usage).1

ingests_twice :
    (ingest any_event id_digest "task-1" "i-1" (some reporter) twice no_usage).0
    ≡ ok (record { accepted = 1; duplicates = 1; completeness = in_part; cursor = some "u-1" })
unfolding ingest validate_identifier stage_batch validate_event check_amounts append_staged
    append_event same_type member same_status status_code lookup index_by index_onto insert values
ingests_twice = refl

metered_once : Metered any_event id_digest metered
metered_once = ingested "task-1" "i-1" (some reporter) twice (no_events [])

Metered-IsLedger_example : IsLedger metered.events
Metered-IsLedger_example = Metered-IsLedger any_event id_digest metered metered_once

-- The events of a batch whose collection state was not written.
abbrev cut_off : Meter
cut_off = record { events = first_call ∷ []; collection = [] }

abbrev counted : Meter
counted = record {
  events = first_call ∷ [];
  collection =
      (
        "i-1",
        record {
          agent_type = AgentType.image;
          status = in_part;
          event_count = 1;
          cursor = some "u-1";
          source = "recovery";
        },
      )
      ∷ [];
}

abbrev image_agents : String → Option AgentType
image_agents _ = some AgentType.image

recounts : recover_usage image_agents cut_off ≡ ok counted
unfolding recover_usage repair_counts repair_count counts_onto add_count last_ids_onto lookup insert
recounts = refl

one_not_zero : count (reported_by "i-1") cut_off.events ≢ 0
one_not_zero = omega arith

recover_usage-IsCounted_example :
    (counted.events ≡ cut_off.events)
    × IsCounted (count (reported_by "i-1") cut_off.events) (lookup "i-1" counted.collection)
recover_usage-IsCounted_example =
    recover_usage-IsCounted image_agents cut_off counted "i-1" recounts one_not_zero

abbrev text_order : String → String → Bool
text_order a b = a == b

summary-IsBalanced_example : IsBalanced (summary text_order "master-1" none (reporter ∷ []) metered)
summary-IsBalanced_example =
    summary-IsBalanced text_order "master-1" none (reporter ∷ []) metered
      (Metered-IsLedger any_event id_digest metered metered_once)
