-- ===== src/Retry/History.antt =====
-- backend/harness/services/retry_budget.py: the histories of a budget snapshot, each command that
-- commits being a step.
use agentic_design_harness.Common.{
  eqb, Code, Outcome, ok, guard, >>=-eq-ok, ok_inj, ℕ, String, ◌≡◌, sym, ap, ◌∙◌, inl, inr, true,
  Option, arith,
}
use agentic_design_harness.Storage.{Actor}
use agentic_design_harness.Retry.Budget.{
  pending_approval, Policy, Decision, Envelope, Limits, Attempt, Snapshot, initial_snapshot,
}
use agentic_design_harness.Retry.Steps.{
  configure, Request, requested_tokens, request_retry, consume_override,
}
use agentic_design_harness.Retry.Settlement.{settle}
use agentic_design_harness.Retry.Override.{Approval, prepare_resolution, resolve_approval}
use agentic_design_harness.Retry.Accounts.{Balanced}
use agentic_design_harness.Retry.Conservation.{
  initial_snapshot-Balanced, configure-Balanced, reserved_ledger-Follows, request_retry-Balanced,
  Moves-frozen, Moves-Balanced, consume_override-Moves,
}
use agentic_design_harness.Retry.Decisions.{prepare_resolution-Moves, resolve_approval-Moves}
use agentic_design_harness.Retry.Attempts.{get_attempt}
use agentic_design_harness.Retry.Results.{denied_gates_of, request_retry-Requested}
use agentic_design_harness.Retry.Limits.{RoomFor, request_retry-decides}
use agentic_design_harness.Retry.Cases.{get_attempt-ok}
use agentic_design_harness.Retry.Releases.{settle-Moves}

-- A command that succeeds, and the decision that was prepared before a crash.
pub data Step : Snapshot → Snapshot → Type 0 where
  configured :
      {s s' : Snapshot} (policy : Policy) (expected now : ℕ)
      → configure s policy expected now ≡ ok s'
      → Step s s'
  requested :
      {s s' : Snapshot} (q : Request) (a : Attempt) (now : ℕ)
      → request_retry s q now ≡ ok (s', a)
      → Step s s'
  consumed :
      {s s' : Snapshot} (id : String) (a : Attempt) (now : ℕ)
      → consume_override s id now ≡ ok (s', a)
      → Step s s'
  used :
      {s s' : Snapshot} (id : String) (a : Attempt) (actual : ℕ) (cost : Option ℕ) (actor : Actor)
      (now : ℕ)
      → settle s id actual cost actor now ≡ ok (s', a)
      → Step s s'
  resolved :
      (commit_resolution : String → Decision → Envelope → Outcome (Unit {0})) {s s' : Snapshot}
      (a : Attempt) (approval : Approval) (decision : Decision) (action : Option String)
      (limits : Limits) (sha : String) (envelope : Envelope) (now : ℕ)
      → resolve_approval commit_resolution s approval decision action limits sha envelope now
        ≡ ok (s', a)
      → Step s s'
  interrupted :
      {s s' : Snapshot} (b a : Attempt) (approval : Approval) (decision : Decision)
      (limits : Limits) (sha : String) (envelope : Envelope) (now : ℕ)
      → get_attempt s approval.attempt_id ≡ ok b
      → prepare_resolution s b approval decision limits sha envelope now ≡ ok (s', a)
      → Step s s'

pub data Reach (s : Snapshot) : Snapshot → Type 0 where
  start : Reach s s
  step : {mid end : Snapshot} → Reach s mid → Step mid end → Reach s end

Step-Balanced : (s s' : Snapshot) → Step s s' → Balanced s → Balanced s'
Step-Balanced s s' (configured policy expected now e) h =
    configure-Balanced s s' policy expected now h e
Step-Balanced s s' (requested q a now e) h = request_retry-Balanced s s' q a now h e
Step-Balanced s s' (consumed id a now e) h =
    Moves-Balanced s s' (consume_override-Moves s s' id a now h e) h
Step-Balanced s s' (used id a actual cost actor now e) h =
    Moves-Balanced s s' (settle-Moves s s' id a actual cost actor now h e) h
Step-Balanced s s' (resolved commit_resolution a approval decision action limits sha envelope now e)
      h =
    let (t, first, second) =
      resolve_approval-Moves commit_resolution s s' a approval decision action limits sha envelope
        now h e in
    Moves-Balanced t s' second (Moves-Balanced s t first h)
Step-Balanced s s' (interrupted b a approval decision limits sha envelope now there e) h =
    Moves-Balanced s s'
      (prepare_resolution-Moves s s' b a approval decision limits sha envelope now
        (get_attempt-ok s approval.attempt_id b there) e).0
      h

-- In every snapshot that the commands make of a new one, a decision cut off by a crash included,
-- the ledger is the account of the attempts: the tokens and the cost that are reserved are those
-- of the reserved attempts, the tokens settled those that the settled ones used, the cost settled
-- is the sum of theirs if all are known and not known otherwise, and only an attempt that waits
-- for its approval has a prepared decision.
pub Reach-Balanced :
    (task_id : String) (created : ℕ) (s : Snapshot)
    → Reach (initial_snapshot task_id created) s
    → Balanced s
Reach-Balanced id now s start = initial_snapshot-Balanced id now
Reach-Balanced id now s (step {mid} r last) = Step-Balanced mid s last (Reach-Balanced id now mid r)

configure-frozen :
    (s s' : Snapshot) (policy : Policy) (expected now : ℕ)
    → configure s policy expected now ≡ ok s'
    → s'.retry_budget_ledger ≡ s.retry_budget_ledger
unfolding configure
configure-frozen s s' policy expected now e =
    let (_, _, t) = >>=-eq-ok (guard (eqb s.revision expected) Code.revision_conflict) _ e in
    sym (ap (λ x. x.retry_budget_ledger) (ok_inj t))

Step-frozen :
    (s s' : Snapshot)
    → Step s s'
    → Balanced s
    → s.retry_budget_ledger.frozen ≡ true
    → s'.retry_budget_ledger.frozen ≡ true
Step-frozen s s' (configured policy expected now e) h z =
    ap (λ l. l.frozen) (configure-frozen s s' policy expected now e) ∙ z
Step-frozen s s' (requested q a now e) h z =
    let r = request_retry-Requested s s' q a now e in
    (reserved_ledger-Follows s.retry_budget_ledger s'.retry_budget_ledger q (denied_gates_of s q)
        (requested_tokens s.retry_policy q) now r.ledger).stays_frozen
      z
Step-frozen s s' (consumed id a now e) h z =
    Moves-frozen s s' (consume_override-Moves s s' id a now h e) z
Step-frozen s s' (used id a actual cost actor now e) h z =
    Moves-frozen s s' (settle-Moves s s' id a actual cost actor now h e) z
Step-frozen s s' (resolved commit_resolution a approval decision action limits sha envelope now e) h
      z =
    let (t, first, second) =
      resolve_approval-Moves commit_resolution s s' a approval decision action limits sha envelope
        now h e in
    Moves-frozen t s' second (Moves-frozen s t first z)
Step-frozen s s' (interrupted b a approval decision limits sha envelope now there e) h z =
    Moves-frozen s s'
      (prepare_resolution-Moves s s' b a approval decision limits sha envelope now
        (get_attempt-ok s approval.attempt_id b there) e).0
      z

Reach-frozen :
    (s t : Snapshot)
    → Balanced s
    → s.retry_budget_ledger.frozen ≡ true
    → Reach s t
    → Balanced t × (t.retry_budget_ledger.frozen ≡ true)
Reach-frozen s t h z start = (h, z)
Reach-frozen s t h z (step {mid} r last) =
    let (h', z') = Reach-frozen s mid h z r in
    (Step-Balanced mid t last h', Step-frozen mid t last h' z')

-- Once the ledger of a task's budget is frozen, no later command unfreezes it, and a retry that is
-- requested at any time after it waits for an approval.
pub request_retry-frozen :
    (task_id : String) (created : ℕ) (s t u : Snapshot) (q : Request) (a : Attempt) (now : ℕ)
    → Reach (initial_snapshot task_id created) s
    → s.retry_budget_ledger.frozen ≡ true
    → Reach s t
    → request_retry t q now ≡ ok (u, a)
    → (a.status ≡ pending_approval) × (u.retry_budget_ledger.frozen ≡ true)
unfolding RoomFor
request_retry-frozen id created s t u q a now past z r e =
    let (h', z') = Reach-frozen s t (Reach-Balanced id created s past) z r in
    elim (request_retry-decides t u q a now e) [
      | inl (_, room) ↦ absurd (ground (arith, room.not_frozen, z'))
      | inr (waits, _, kept) ↦ (waits, ap (λ l. l.frozen) kept ∙ z')
    ]
