-- ===== src/Retry/Settlement.antt =====
-- backend/harness/services/retry_budget.py: `settle`, what a finished retry makes of the ledger.
use Prim.Native.String.{◌++◌ as concat}
use agentic_design_harness.Common.{
  ltb, eqb, if◌then◌else◌, Code, Outcome, ok, err, ◌>>=◌, ◌>>◌, guard, ℕ, ◌+◌, ◌-◌, String, Bool,
  true, false, ◌&&◌, ◌||◌, not, Option, none, some, ◌==◌,
}
use agentic_design_harness.Storage.{Actor}
use agentic_design_harness.Retry.Budget.{settled, exceeded, Ledger, Attempt, Snapshot}
use agentic_design_harness.Retry.Attempts.{get_attempt}
use agentic_design_harness.Retry.Steps.{amount, changed, to_int, is_reserved, is_settled}

-- `value != other` for numbers that may be missing
abbrev pub same_number : Option ℕ → Option ℕ → Bool
same_number none none = true
same_number (some m) (some n) = eqb m n
same_number _ _ = false

-- Usage may be settled by the system or by the adapter of the attempt's agent type.
unfoldable pub may_settle : Actor → String → Bool
may_settle actor agent_type =
    (actor.actor_type == "system")
    || (actor.actor_type == "adapter") && (actor.actor_id == concat agent_type "_adapter")

-- `actual_tokens > reserved_tokens or (... actual_cost_micros > reserved_cost)`
unfoldable pub cost_exceeds : Option ℕ → Option ℕ → Bool
cost_exceeds (some reserved_cost) (some actual_cost) = ltb reserved_cost actual_cost
cost_exceeds _ _ = false

unfoldable pub exceeds : ℕ → Option ℕ → ℕ → Option ℕ → Bool
unfolding cost_exceeds
exceeds reserved_tokens reserved_cost actual_tokens actual_cost =
    ltb reserved_tokens actual_tokens || cost_exceeds reserved_cost actual_cost

-- The cost that is known to be settled; once one settlement has none, the total has none.
unfoldable pub settled_cost : Ledger → Option ℕ → Option ℕ
settled_cost ledger none = none
settled_cost ledger (some actual_cost) =
    if eqb ledger.unknown_cost_settlements 0
    then some (amount ledger.retry_cost_micros_settled + actual_cost)
    else ledger.retry_cost_micros_settled

abbrev pub one_if_none : Option ℕ → ℕ
one_if_none none = 1
one_if_none (some n) = 0

-- `max(0, reserved - amount)` is the subtraction of natural numbers.
unfoldable pub settled_ledger : Ledger → ℕ → Option ℕ → ℕ → Option ℕ → Ledger
unfolding exceeds settled_cost
settled_ledger ledger reserved_tokens reserved_cost actual_tokens actual_cost =
    let over = exceeds reserved_tokens reserved_cost actual_tokens actual_cost in
    record {
      retry_tokens_reserved = ledger.retry_tokens_reserved - reserved_tokens;
      retry_tokens_settled = ledger.retry_tokens_settled + actual_tokens;
      retry_cost_micros_reserved = ledger.retry_cost_micros_reserved - amount reserved_cost;
      retry_cost_micros_settled = settled_cost ledger actual_cost;
      unknown_cost_settlements = ledger.unknown_cost_settlements + one_if_none actual_cost;
      frozen = if over then true else ledger.frozen;
      frozen_reason =
          if over then some "ACTUAL_USAGE_EXCEEDED_RESERVATION" else ledger.frozen_reason;
    }

unfoldable pub settled_attempt : Attempt → ℕ → ℕ → Option ℕ → ℕ → Attempt
unfolding exceeds
settled_attempt attempt reserved_tokens actual_tokens actual_cost now = record attempt {
  status =
      if exceeds reserved_tokens attempt.reserved_cost_micros actual_tokens actual_cost
      then exceeded
      else settled;
  actual_tokens = some actual_tokens;
  actual_cost_micros = actual_cost;
  settled_at = some now;
}

-- The part of `settle` below the lookups: a settled attempt is returned as it stands if the usage
-- is the same.
unfoldable pub settle_attempt : Snapshot → Attempt → ℕ → Option ℕ → ℕ → Outcome (Snapshot × Attempt)
settle_attempt snapshot attempt actual_tokens actual_cost now =
    if is_settled attempt.status
    then (if same_number attempt.actual_tokens (some actual_tokens)
          && same_number attempt.actual_cost_micros actual_cost
        then ok (snapshot, attempt)
        else err Code.idempotency_conflict)
    else if not (is_reserved attempt.status)
    then err Code.invalid_state_transition
    else to_int attempt.reserved_tokens >>= λ reserved_tokens.
        let next = settled_attempt attempt reserved_tokens actual_tokens actual_cost now in
        ok (
          changed snapshot next
              (settled_ledger snapshot.retry_budget_ledger reserved_tokens
                attempt.reserved_cost_micros actual_tokens actual_cost)
              now,
          next,
        )

-- `settle` on the snapshot, without the replay of a committed command.
unfoldable pub settle : Snapshot → String → ℕ → Option ℕ → Actor → ℕ → Outcome (Snapshot × Attempt)
unfolding may_settle settle_attempt
settle snapshot attempt_id actual_tokens actual_cost actor now = do
  attempt ← get_attempt snapshot attempt_id
  guard (may_settle actor attempt.agent_type) Code.validation_error
  settle_attempt snapshot attempt actual_tokens actual_cost now
