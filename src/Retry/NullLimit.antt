-- ===== src/Retry/NullLimit.antt =====
-- backend/harness/services/retry_budget.py: an override without an amount.
use agentic_design_harness.Common.{
  eqb, type_error, Outcome, ok, fault, ℕ, String, ◌≡◌, refl, subst, true, false, none, some, [],
  ◌∷◌, ◌==◌,
}
use agentic_design_harness.Retry.Budget.{
  token_bound_unknown, missing, null, Decision, approves, Envelope, Limits, Pending, Attempt,
  Snapshot,
}
use agentic_design_harness.Retry.Attempts.{attempt_of, get_attempt}
use agentic_design_harness.Retry.Steps.{changed, consume_override}
use agentic_design_harness.Retry.Override.{
  Approval, check_decision, check_limits, is_pending_approval, bump, prepare_resolution,
  resolved_attempt, same_id, finish_pending, resume_or_prepare, resolve_approval,
}
use agentic_design_harness.Retry.Decisions.{changed-found}
use agentic_design_harness.Retry.Cases.{get_attempt-ok, get_attempt-id}

-- A decision on an attempt that was denied for nothing but the want of a token amount, sent by the
-- owner of the open approval for its current revision.
pub record IsDecidable (s : Snapshot) (a : Attempt) (approval : Approval) (envelope : Envelope)
    : Type 0 where
  pub found : get_attempt s approval.attempt_id ≡ ok a
  pub is_override : approval.is_budget_override ≡ true
  pub is_open : approval.is_pending ≡ true
  pub names_approval : same_id a.approval_id approval.approval_id ≡ true
  pub waits : is_pending_approval a.status ≡ true
  pub is_fresh : a.pending_resolution ≡ none
  pub is_owner : (envelope.actor_type == approval.owner) ≡ true
  pub is_current : eqb envelope.expected_revision approval.approval_revision ≡ true
  pub used : ℕ
  pub held : ℕ
  pub limit : ℕ
  pub denied : a.denied_gates ≡ token_bound_unknown used held limit ∷ []

consume-null :
    (s : Snapshot) (id : String) (a : Attempt) (p : Pending) (now later : ℕ)
    → p.decision ≡ approves
    → p.limits.token_limit ≡ null
    → get_attempt s id ≡ ok (resolved_attempt a p now)
    → consume_override s id later ≡ fault type_error
unfolding consume_override resolved_attempt
consume-null s id a p now later d n found = rw (found, d, n) refl

-- The only limit of an approval is a token limit that is null.
abbrev pub null_limits : Limits
null_limits = record { token_limit = null; cost_limit_micros = missing; has_other_keys = false }

-- For an attempt that was denied for nothing but the want of a token amount: an approval with the limits
-- {"token_limit": null}, sent by the owner of the open approval for its current revision, is accepted
-- where the approval itself can be committed; and the override that it leaves can never be consumed:
-- every later `consume_override` fails with a TypeError.
pub resolve_approval-null_limit :
    (commit_resolution : String → Decision → Envelope → Outcome (Unit {0})) (s : Snapshot)
    (a : Attempt) (approval : Approval) (sha : String) (envelope : Envelope) (now : ℕ)
    → IsDecidable s a approval envelope
    → commit_resolution approval.approval_id approves envelope ≡ ok tt
    → (s' : Snapshot) × (a' : Attempt) × (resolve_approval commit_resolution s approval approves
          (some "approve_once")
          null_limits
          sha
          envelope
          now
        ≡ ok (s', a'))
      × ((later : ℕ) → consume_override s' approval.attempt_id later ≡ fault type_error)
unfolding resolve_approval check_decision resume_or_prepare prepare_resolution check_limits
    finish_pending bump get_attempt
resolve_approval-null_limit commit_resolution s a approval sha envelope now d c =
    let p : Pending = record {
      approval_id = approval.approval_id;
      decision = approves;
      limits = null_limits;
      request_sha256 = sha;
      envelope = envelope;
    } in
    let prepared : Attempt = record a { pending_resolution = some p } in
    let s1 : Snapshot = changed s prepared s.retry_budget_ledger now in
    let next : Attempt = resolved_attempt prepared p now in
    let s2 : Snapshot = changed s1 next s1.retry_budget_ledger now in
    let named : a.attempt_id ≡ approval.attempt_id =
      get_attempt-id s approval.attempt_id a d.found in
    let here = get_attempt-ok s approval.attempt_id a d.found in
    let here1 : attempt_of a.attempt_id s1.attempts ≡ some prepared =
      changed-found s a prepared s.retry_budget_ledger now here in
    let here2 : attempt_of a.attempt_id s2.attempts ≡ some next =
      changed-found s1 prepared next s1.retry_budget_ledger now here1 in
    let there : get_attempt s2 approval.attempt_id ≡ ok next =
      subst (λ x. get_attempt s2 x ≡ ok next) named (rw here2 refl) in
    (
      s2,
      next,
      rw
          (
            d.is_override, d.found, d.names_approval, d.is_fresh, d.is_open, d.waits, d.is_owner,
            d.is_current, d.denied, c,
          )
          refl,
      λ later. consume-null s2 approval.attempt_id prepared p now later refl refl there,
    )
