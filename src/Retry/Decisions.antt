-- ===== src/Retry/Decisions.antt =====
-- backend/harness/services/retry_budget.py: the decision on a denied retry leaves the ledger in
-- balance with the attempts.
use agentic_design_harness.Common.{
  eqb, Code, Outcome, ok, guard, >>=-eq-ok, guard-eq-ok, ok_inj, ℕ, String, ◌≡◌, refl, ap, ◌∙◌,
  subst, inl, inr, ◌&&◌, Option, none, some, arith, ◌==◌, eq_iff,
}
use agentic_design_harness.Retry.Budget.{
  pending_approval, Ledger, Decision, Envelope, Limits, Pending, Attempt, Snapshot,
}
use agentic_design_harness.Retry.Attempts.{attempt_of, get_attempt, attempt_of-replace}
use agentic_design_harness.Retry.Steps.{changed}
use agentic_design_harness.Retry.Override.{
  Approval, check_decision, check_limits, is_pending_approval, bump, prepare_resolution,
  resolved_attempt, same_id, finish_pending, resume_or_prepare, resolve_approval,
}
use agentic_design_harness.Retry.Accounts.{
  held_tokens, held_cost, spent_tokens, spent_cost, unpriced, waits_if_prepared, Balanced, Follows,
}
use agentic_design_harness.Retry.Conservation.{Moves, stays, moves, Moves-Balanced, waits_of}
use agentic_design_harness.Retry.Cases.{pending_of, get_attempt-ok, Decision-cases}

-- The decision on a denied retry, prepared and finished.
prepared-Follows :
    (l : Ledger) (a : Attempt) (p : Option Pending)
    → a.status ≡ pending_approval
    → Follows l l a (record a { pending_resolution = p })
unfolding held_tokens held_cost spent_tokens spent_cost unpriced waits_if_prepared
prepared-Follows l a p st = record {
  tokens_held = refl;
  tokens_spent = refl;
  cost_held = refl;
  unknowns = refl;
  cost_spent = λ n k. rw st (ground (arith, k));
  not_spent = rw st refl;
  waits = rw st (ground arith);
  stays_frozen = λ h. h;
}

resolved_attempt-Follows :
    (l : Ledger) (a : Attempt) (p : Pending) (now : ℕ)
    → a.status ≡ pending_approval
    → Follows l l a (resolved_attempt a p now)
unfolding resolved_attempt held_tokens held_cost spent_tokens spent_cost unpriced waits_if_prepared
resolved_attempt-Follows l a p now st = elim (Decision-cases p.decision) [
  | inl e ↦ rw e (record {
    tokens_held = rw st refl;
    tokens_spent = rw st refl;
    cost_held = rw st refl;
    unknowns = rw st refl;
    cost_spent = λ n k. ground (arith, k);
    not_spent = rw st refl;
    waits = refl;
    stays_frozen = λ h. h;
  })
  | inr e ↦ rw e (record {
    tokens_held = rw st refl;
    tokens_spent = rw st refl;
    cost_held = rw st refl;
    unknowns = rw st refl;
    cost_spent = λ n k. ground (arith, k);
    not_spent = rw st refl;
    waits = refl;
    stays_frozen = λ h. h;
  })
]

resolved_attempt-id :
    (a : Attempt) (p : Pending) (now : ℕ) → (resolved_attempt a p now).attempt_id ≡ a.attempt_id
unfolding resolved_attempt
resolved_attempt-id a p now = elim (Decision-cases p.decision) [
  | inl e ↦ rw e refl
  | inr e ↦ rw e refl
]

-- The next attempt of a command is the one that a later command finds.
pub changed-found :
    (s : Snapshot) (b next : Attempt) (l : Ledger) (now : ℕ)
    → attempt_of next.attempt_id s.attempts ≡ some b
    → attempt_of next.attempt_id (changed s next l now).attempts ≡ some next
changed-found s b next l now found =
    attempt_of-replace next.attempt_id next.attempt_id b next s.attempts found refl
    ∙ rw ((eq_iff next.attempt_id next.attempt_id).1 refl) refl

pub prepare_resolution-Moves :
    (s s' : Snapshot) (b a : Attempt) (approval : Approval) (decision : Decision) (limits : Limits)
    (sha : String) (envelope : Envelope) (now : ℕ)
    → attempt_of b.attempt_id s.attempts ≡ some b
    → prepare_resolution s b approval decision limits sha envelope now ≡ ok (s', a)
    → Moves s s' × (attempt_of a.attempt_id s'.attempts ≡ some a)
unfolding prepare_resolution bump
prepare_resolution-Moves s s' b a approval decision limits sha envelope now found e =
    let (_, waiting, e1) =
      >>=-eq-ok
        (guard (approval.is_pending && is_pending_approval b.status) Code.invalid_state_transition)
        _ e in
    let (_, owner, e2) =
      >>=-eq-ok (guard (envelope.actor_type == approval.owner) Code.validation_error) _ e1 in
    let (_, current, e3) =
      >>=-eq-ok
        (guard (eqb envelope.expected_revision approval.approval_revision) Code.revision_conflict) _
        e2 in
    let (_, given, e4) = >>=-eq-ok (check_limits decision b.denied_gates limits) _ e3 in
    let st = pending_of b.status (ground (arith, guard-eq-ok _ _ waiting)) in
    let made = ok_inj e4 in
    subst (λ p. Moves s p.0 × (attempt_of p.1.attempt_id p.0.attempts ≡ some p.1)) made
      (
        moves b _ _ now found (prepared-Follows s.retry_budget_ledger b _ st),
        changed-found s b _ s.retry_budget_ledger now found,
      )

module _ (commit_resolution : String → Decision → Envelope → Outcome (Unit {0})) where
  finish_pending-Moves :
      (s s' : Snapshot) (b a : Attempt) (p : Option Pending) (now : ℕ)
      → Balanced s
      → attempt_of b.attempt_id s.attempts ≡ some b
      → b.pending_resolution ≡ p
      → finish_pending commit_resolution s b p now ≡ ok (s', a)
      → Moves s s'
  unfolding finish_pending bump waits_if_prepared
  finish_pending-Moves s s' b a none now h found same e = cc
  finish_pending-Moves s s' b a (some p) now h found same e =
      let (_, committed, e1) =
        >>=-eq-ok (commit_resolution p.approval_id p.decision p.envelope) _ e in
      let st = pending_of b.status (ground (arith, waits_of s b h found, same)) in
      let same_name = resolved_attempt-id b p now in
      let found' : attempt_of (resolved_attempt b p now).attempt_id s.attempts ≡ some b =
        rw same_name found in
      subst (Moves s) (ap (λ q. q.0) (ok_inj e1)) (
        moves b (resolved_attempt b p now) s.retry_budget_ledger now found'
          (resolved_attempt-Follows s.retry_budget_ledger b p now st))

  -- At most two moves, the decision and its end.
  resume_or_prepare-Moves :
      (s s' : Snapshot) (b a : Attempt) (p : Option Pending) (approval : Approval)
      (decision : Decision) (limits : Limits) (sha : String) (envelope : Envelope) (now : ℕ)
      → Balanced s
      → attempt_of b.attempt_id s.attempts ≡ some b
      → b.pending_resolution ≡ p
      → resume_or_prepare commit_resolution s b p approval decision limits sha envelope now
        ≡ ok (s', a)
      → (t : Snapshot) × Moves s t × Moves t s'
  unfolding resume_or_prepare
  resume_or_prepare-Moves s s' b a (some p) approval decision limits sha envelope now h found same
        e =
      let (_, mine, e1) =
        >>=-eq-ok
          (guard
            ((p.request_sha256 == sha) && (p.envelope.idempotency_key == envelope.idempotency_key))
            Code.idempotency_conflict)
          _ e in
      (s, stays, finish_pending-Moves s s' b a (some p) now h found same e1)
  resume_or_prepare-Moves s s' b a none approval decision limits sha envelope now h found same e =
      let ((prepared, next), made, e1) =
        >>=-eq-ok (prepare_resolution s b approval decision limits sha envelope now) _ e in
      let (m, there) =
        prepare_resolution-Moves s prepared b next approval decision limits sha envelope now found
          made in
      let h' = Moves-Balanced s prepared m h in
      (
        prepared,
        m,
        finish_pending-Moves prepared s' next a next.pending_resolution now h' there refl e1,
      )

  pub resolve_approval-Moves :
      (s s' : Snapshot) (a : Attempt) (approval : Approval) (decision : Decision)
      (action : Option String) (limits : Limits) (sha : String) (envelope : Envelope) (now : ℕ)
      → Balanced s
      → resolve_approval commit_resolution s approval decision action limits sha envelope now
        ≡ ok (s', a)
      → (t : Snapshot) × Moves s t × Moves t s'
  unfolding resolve_approval
  resolve_approval-Moves s s' a approval decision action limits sha envelope now h e =
      let (_, budget, e1) =
        >>=-eq-ok (guard approval.is_budget_override Code.validation_error) _ e in
      let (_, checked, e2) = >>=-eq-ok (check_decision decision action limits) _ e1 in
      let (b, there, e3) = >>=-eq-ok (get_attempt s approval.attempt_id) _ e2 in
      let (_, its, e4) =
        >>=-eq-ok (guard (same_id b.approval_id approval.approval_id) Code.idempotency_conflict) _
          e3 in
      resume_or_prepare-Moves s s' b a b.pending_resolution approval decision limits sha envelope
        now h (get_attempt-ok s approval.attempt_id b there) refl e4
