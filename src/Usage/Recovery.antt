-- ===== src/Usage/Recovery.antt =====
-- backend/harness/services/usage.py: `recover` for one task. The collection state is counted again from the
-- stored events. What the store has of an instance, the master included, is a parameter.
pub mod Counts
use agentic_design_harness.Common.{
  eqb, if◌then◌else◌, is_some, Code, validation_error, Outcome, ok, require, index, ◌>>=◌, ◌>>◌,
  Dict, lookup, insert, ℕ, ◌+◌, String, Bool, true, ◌||◌, not, Option, none, some, List, [], ◌∷◌,
  ◌==◌,
}
use agentic_design_harness.Model.{AgentType}
use agentic_design_harness.Usage.{UsageEvent, in_part, Entry, Meter}
use agentic_design_harness.Usage.Ingestion.{prior_cursor}

-- `counts[event["instance_id"]] += 1`
unfoldable pub add_count : String → Dict ℕ → Dict ℕ
add_count k [] = (k, 1) ∷ []
add_count k ((j, n) ∷ d) =
    let rest = add_count k d in if k == j then (j, n + 1) ∷ d else (j, n) ∷ rest

unfoldable pub counts_onto : Dict ℕ → List UsageEvent → Dict ℕ
unfolding add_count
counts_onto d [] = d
counts_onto d (e ∷ es) = counts_onto (add_count e.instance_id d) es

unfoldable pub last_ids_onto : Dict String → List UsageEvent → Dict String
last_ids_onto d [] = d
last_ids_onto d (e ∷ es) = last_ids_onto (insert e.instance_id e.event_id d) es

abbrev pub needs_repair : ℕ → Option Entry → Bool
needs_repair n none = true
needs_repair n (some entry) = not (eqb entry.event_count n) || not (is_some entry.cursor)

-- The cursor of the entry, or the last event of the instance where it has none.
abbrev pub repaired_cursor : Option String → Outcome String → Outcome (Option String)
repaired_cursor none last = last >>= λ id. ok (some id)
repaired_cursor (some cursor) last = ok (some cursor)

module _ (agent_of : String → Option AgentType) where
  -- One round of the loop over the counts.
  unfoldable pub repair_count : Dict String → String × ℕ → Dict Entry → Outcome (Dict Entry)
  repair_count last_ids (k, n) collection =
      let entry = lookup k collection in
      if not (needs_repair n entry) then ok collection else (do
        agent ← require (agent_of k) Code.validation_error
        cursor ← repaired_cursor (prior_cursor entry) (index (lookup k last_ids))
        ok (
            insert k
              (record {
                agent_type = agent;
                status = in_part;
                event_count = n;
                cursor = cursor;
                source = "recovery";
              })
              collection))

  unfoldable pub repair_counts : Dict String → Dict ℕ → Dict Entry → Outcome (Dict Entry)
  unfolding repair_count
  repair_counts last_ids [] collection = ok collection
  repair_counts last_ids (c ∷ counts) collection =
      repair_count last_ids c collection >>= repair_counts last_ids counts

  -- `recover`, for one task
  unfoldable pub recover_usage : Meter → Outcome Meter
  unfolding repair_counts counts_onto last_ids_onto
  recover_usage meter = do
    collection ←
        repair_counts (last_ids_onto [] meter.events) (counts_onto [] meter.events) meter.collection
    ok (record meter { collection = collection })
