-- ===== src/Retry/Cases.antt =====
-- backend/harness/services/retry_budget.py: the attempt that a command finds, and what its status is.
use agentic_design_harness.Common.{
  is_some, Option-cases, ok, ok_inj, ℕ, String, ◌≡◌, refl, sym, ap, ◌∙◌, subst, ◌⊎◌, inl, inr, true,
  false, Option, none, some, arith,
}
use agentic_design_harness.Retry.Budget.{
  AttemptStatus, pending_approval, reserved, authorized, settled, exceeded, cancelled, Decision,
  approves, rejects, Attempt, Snapshot,
}
use agentic_design_harness.Retry.Attempts.{attempt_of, get_attempt, attempt_of-id}
use agentic_design_harness.Retry.Steps.{to_int, is_reserved, is_authorized}
use agentic_design_harness.Retry.Override.{is_pending_approval}
use agentic_design_harness.Retry.Accounts.{waits_if_prepared}

pub not_prepared :
    (a : Attempt)
    → is_pending_approval a.status ≡ false
    → waits_if_prepared a ≡ true
    → is_some a.pending_resolution ≡ false
unfolding waits_if_prepared
not_prepared a h w = ground arith

pub authorized_of : (x : AttemptStatus) → is_authorized x ≡ true → x ≡ authorized
authorized_of authorized h = refl
authorized_of pending_approval h = cc
authorized_of reserved h = cc
authorized_of settled h = cc
authorized_of exceeded h = cc
authorized_of cancelled h = cc

pub reserved_of : (x : AttemptStatus) → is_reserved x ≡ true → x ≡ reserved
reserved_of reserved h = refl
reserved_of pending_approval h = cc
reserved_of authorized h = cc
reserved_of settled h = cc
reserved_of exceeded h = cc
reserved_of cancelled h = cc

pub pending_of : (x : AttemptStatus) → is_pending_approval x ≡ true → x ≡ pending_approval
pending_of pending_approval h = refl
pending_of reserved h = cc
pending_of authorized h = cc
pending_of settled h = cc
pending_of exceeded h = cc
pending_of cancelled h = cc

pub to_int-ok : (o : Option ℕ) (n : ℕ) → to_int o ≡ ok n → o ≡ some n
to_int-ok none n h = cc
to_int-ok (some m) n h = ap some (ok_inj h)

pub get_attempt-ok :
    (s : Snapshot) (id : String) (a : Attempt)
    → get_attempt s id ≡ ok a
    → attempt_of a.attempt_id s.attempts ≡ some a
unfolding get_attempt
get_attempt-ok s id a h = elim (Option-cases (attempt_of id s.attempts)) [
  | inl e ↦ ground (arith, e)
  | inr (b, e) ↦
      let same : b ≡ a = ground (arith, e) in
      let there : attempt_of id s.attempts ≡ some a = e ∙ ap some same in
      subst (λ x. attempt_of x s.attempts ≡ some a) (sym (attempt_of-id id a s.attempts there))
        there
]

pub Decision-cases : (d : Decision) → (d ≡ approves) ⊎ (d ≡ rejects)
Decision-cases approves = inl refl
Decision-cases rejects = inr refl

pub get_attempt-id :
    (s : Snapshot) (id : String) (a : Attempt) → get_attempt s id ≡ ok a → a.attempt_id ≡ id
unfolding get_attempt
get_attempt-id s id a h = elim (Option-cases (attempt_of id s.attempts)) [
  | inl e ↦ ground (arith, e)
  | inr (b, e) ↦
      let same : b ≡ a = ground (arith, e) in attempt_of-id id a s.attempts (e ∙ ap some same)
]
