-- ===== src/Retry/Accounts.antt =====
-- backend/harness/services/retry_budget.py: the ledger of a budget snapshot as an account of its
-- attempts, and what a change of one attempt has to do to the ledger.
use agentic_design_harness.Common.{
  eqb, if◌then◌else◌, Bool-cases, is_some, sum_by, All, sum_by-append, All-append, ℕ, ◌+◌, String,
  ◌≡◌, subst, inl, inr, Bool, true, ◌&&◌, ◌||◌, not, none, some, List, [], ◌∷◌, ◌++◌, arith, ◌==◌,
}
use agentic_design_harness.Retry.Budget.{pending_approval, Ledger, Attempt, Snapshot}
use agentic_design_harness.Retry.Attempts.{attempt_of, replace, sum_by-replace}
use agentic_design_harness.Retry.Steps.{amount, changed, is_reserved, is_settled}
use agentic_design_harness.Retry.Override.{is_pending_approval}

-- What an attempt holds of the reserved amounts and what it has spent.
unfoldable pub held_tokens : Attempt → ℕ
held_tokens a = if is_reserved a.status then amount a.reserved_tokens else 0

unfoldable pub held_cost : Attempt → ℕ
held_cost a = if is_reserved a.status then amount a.reserved_cost_micros else 0

unfoldable pub spent_tokens : Attempt → ℕ
spent_tokens a = if is_settled a.status then amount a.actual_tokens else 0

unfoldable pub spent_cost : Attempt → ℕ
spent_cost a = if is_settled a.status then amount a.actual_cost_micros else 0

-- 1 for a settled attempt whose cost is not known.
unfoldable pub unpriced : Attempt → ℕ
unpriced a = if is_settled a.status && not (is_some a.actual_cost_micros) then 1 else 0

-- Only an attempt that waits for an approval has a prepared decision.
unfoldable pub waits_if_prepared : Attempt → Bool
waits_if_prepared a = not (is_some a.pending_resolution) || is_pending_approval a.status

pub record IsBalanced (ledger : Ledger) (attempts : List Attempt) : Type 0 where
  pub tokens_reserved : ledger.retry_tokens_reserved ≡ sum_by held_tokens attempts
  pub tokens_settled : ledger.retry_tokens_settled ≡ sum_by spent_tokens attempts
  pub cost_reserved : ledger.retry_cost_micros_reserved ≡ sum_by held_cost attempts
  pub unknown_settlements : ledger.unknown_cost_settlements ≡ sum_by unpriced attempts
  pub cost_settled :
      ledger.retry_cost_micros_settled
      ≡ (if eqb (sum_by unpriced attempts) 0 then some (sum_by spent_cost attempts) else none)
  pub prepared_waits : All (λ a. waits_if_prepared a ≡ true) attempts

-- The accounts of a snapshot are in order.
unfoldable pub Balanced : Snapshot → Type 0
Balanced s = IsBalanced s.retry_budget_ledger s.attempts

-- The ledger follows a change of the attempt `a` into `b`.
pub record Follows (before after : Ledger) (a b : Attempt) : Type 0 where
  pub tokens_held :
      after.retry_tokens_reserved + held_tokens a ≡ before.retry_tokens_reserved + held_tokens b
  pub tokens_spent :
      after.retry_tokens_settled + spent_tokens a ≡ before.retry_tokens_settled + spent_tokens b
  pub cost_held :
      after.retry_cost_micros_reserved + held_cost a
      ≡ before.retry_cost_micros_reserved + held_cost b
  pub unknowns :
      after.unknown_cost_settlements + unpriced a ≡ before.unknown_cost_settlements + unpriced b
  pub cost_spent :
      (spent : ℕ)
      → before.retry_cost_micros_settled
        ≡ (if eqb before.unknown_cost_settlements 0 then some spent else none)
      → after.retry_cost_micros_settled
        ≡ (if eqb after.unknown_cost_settlements 0 then some (spent + spent_cost b) else none)
  pub not_spent : spent_cost a ≡ 0
  pub waits : waits_if_prepared b ≡ true
  pub stays_frozen : before.frozen ≡ true → after.frozen ≡ true

pub All-replace :
    (P : Attempt → Type 0) (id : String) (b : Attempt) (rest : List Attempt)
    → P b
    → All P rest
    → All P (replace id b rest)
unfolding replace
All-replace P id b [] k h = tt
All-replace P id b (x ∷ rest) k h = elim (Bool-cases (x.attempt_id == id)) [
  | inl e ↦ rw e (k, h.1)
  | inr e ↦ rw e (h.0, All-replace P id b rest k h.1)
]

pub All-attempt_of :
    (P : Attempt → Type 0) (id : String) (a : Attempt) (rest : List Attempt)
    → attempt_of id rest ≡ some a
    → All P rest
    → P a
unfolding attempt_of
All-attempt_of P id a [] e h = cc
All-attempt_of P id a (x ∷ rest) e h = elim (Bool-cases (x.attempt_id == id)) [
  | inl t ↦ let same : x ≡ a = ground arith in subst P same h.0
  | inr t ↦ All-attempt_of P id a rest (ground arith) h.1
]

module _ (before after : Ledger) (a b : Attempt) (rest : List Attempt) where
  replace-IsBalanced :
      (id : String)
      → attempt_of id rest ≡ some a
      → IsBalanced before rest
      → Follows before after a b
      → IsBalanced after (replace id b rest)
  replace-IsBalanced id e h f =
      let t = sum_by-replace held_tokens id a b rest e in
      let u = sum_by-replace spent_tokens id a b rest e in
      let v = sum_by-replace held_cost id a b rest e in
      let w = sum_by-replace unpriced id a b rest e in
      let x = sum_by-replace spent_cost id a b rest e in
      let x' : sum_by spent_cost (replace id b rest) ≡ sum_by spent_cost rest + spent_cost b =
        omega (arith, x, f.not_spent) in
      let w' : after.unknown_cost_settlements ≡ sum_by unpriced (replace id b rest) =
        omega (arith, w, f.unknowns, h.unknown_settlements) in
      record {
        tokens_reserved = omega (arith, t, f.tokens_held, h.tokens_reserved);
        tokens_settled = omega (arith, u, f.tokens_spent, h.tokens_settled);
        cost_reserved = omega (arith, v, f.cost_held, h.cost_reserved);
        unknown_settlements = w';
        cost_settled =
            rw (← w', x')
              (f.cost_spent (sum_by spent_cost rest) (rw h.unknown_settlements h.cost_settled));
        prepared_waits =
            All-replace (λ y. waits_if_prepared y ≡ true) id b rest f.waits h.prepared_waits;
      }

-- A command that changes an attempt it has looked up.
pub changed-Balanced :
    (s : Snapshot) (a b : Attempt) (after : Ledger) (now : ℕ)
    → attempt_of b.attempt_id s.attempts ≡ some a
    → Balanced s
    → Follows s.retry_budget_ledger after a b
    → Balanced (changed s b after now)
unfolding Balanced
changed-Balanced s a b after now e h f =
    replace-IsBalanced s.retry_budget_ledger after a b s.attempts b.attempt_id e h f

-- An attempt that weighs nothing, as if a new one had waited in the list before.
unfoldable pub weightless : Attempt → Attempt
weightless b = record b { status = pending_approval }

pub append-IsBalanced :
    (before after : Ledger) (b : Attempt) (rest : List Attempt)
    → IsBalanced before rest
    → Follows before after (weightless b) b
    → IsBalanced after (rest ++ b ∷ [])
unfolding weightless held_tokens spent_tokens held_cost spent_cost unpriced
append-IsBalanced before after b rest h f =
    let t = sum_by-append held_tokens rest (b ∷ []) in
    let u = sum_by-append spent_tokens rest (b ∷ []) in
    let v = sum_by-append held_cost rest (b ∷ []) in
    let w = sum_by-append unpriced rest (b ∷ []) in
    let x = sum_by-append spent_cost rest (b ∷ []) in
    let x' : sum_by spent_cost (rest ++ b ∷ []) ≡ sum_by spent_cost rest + spent_cost b =
      omega (arith, x) in
    let w' : after.unknown_cost_settlements ≡ sum_by unpriced (rest ++ b ∷ []) =
      omega (arith, w, f.unknowns, h.unknown_settlements) in
    record {
      tokens_reserved = omega (arith, t, f.tokens_held, h.tokens_reserved);
      tokens_settled = omega (arith, u, f.tokens_spent, h.tokens_settled);
      cost_reserved = omega (arith, v, f.cost_held, h.cost_reserved);
      unknown_settlements = w';
      cost_settled =
          rw (← w', x')
            (f.cost_spent (sum_by spent_cost rest) (rw h.unknown_settlements h.cost_settled));
      prepared_waits =
          All-append (λ y. waits_if_prepared y ≡ true) rest (b ∷ []) h.prepared_waits (f.waits, tt);
    }
