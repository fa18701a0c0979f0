-- ===== src/Retry/Conservation.antt =====
-- backend/harness/services/retry_budget.py: the commands leave the ledger in balance with the
-- attempts.
use agentic_design_harness.Common.{
  eqb, is_some, Code, ok, guard, >>=-eq-ok, guard-eq-ok, ok_inj, if-eq-ok, ℕ, String, ◌≡◌, refl, ap,
  subst, inl, inr, true, false, ◌&&◌, Option, none, some, List, [], ◌∷◌, arith,
}
use agentic_design_harness.Retry.Budget.{
  reserved, authorized, Gate, Policy, Ledger, Attempt, Snapshot, initial_snapshot,
}
use agentic_design_harness.Retry.Attempts.{attempt_of, get_attempt}
use agentic_design_harness.Retry.Steps.{
  configure, Request, requested_tokens, new_attempt, add_reservation, reserved_ledger,
  request_retry, changed, to_int, is_reserved, is_authorized, consume_override,
}
use agentic_design_harness.Retry.Results.{denied_gates_of, request_retry-Requested}
use agentic_design_harness.Retry.Accounts.{
  held_tokens, held_cost, spent_tokens, spent_cost, unpriced, waits_if_prepared, IsBalanced,
  Balanced, Follows, All-attempt_of, changed-Balanced, weightless, append-IsBalanced,
}
use agentic_design_harness.Retry.Cases.{not_prepared, authorized_of, to_int-ok, get_attempt-ok}

pub initial_snapshot-Balanced : (id : String) (now : ℕ) → Balanced (initial_snapshot id now)
unfolding initial_snapshot Balanced
initial_snapshot-Balanced id now = record {
  tokens_reserved = refl;
  tokens_settled = refl;
  cost_reserved = refl;
  unknown_settlements = refl;
  cost_settled = refl;
  prepared_waits = tt;
}

pub configure-Balanced :
    (s s' : Snapshot) (policy : Policy) (expected now : ℕ)
    → Balanced s
    → configure s policy expected now ≡ ok s'
    → Balanced s'
unfolding configure Balanced
configure-Balanced s s' policy expected now h e =
    let (_, _, t) = >>=-eq-ok (guard (eqb s.revision expected) Code.revision_conflict) _ e in
    subst (λ x. IsBalanced x.retry_budget_ledger x.attempts) (ok_inj t) h

-- The ledger of a new attempt.
pub reserved_ledger-Follows :
    (l l' : Ledger) (q : Request) (denied : List Gate) (tokens : Option ℕ) (now : ℕ)
    → reserved_ledger l denied tokens q.estimated_cost_micros ≡ ok l'
    → Follows l l' (weightless (new_attempt q tokens denied now)) (new_attempt q tokens denied now)
unfolding reserved_ledger new_attempt add_reservation held_tokens held_cost spent_tokens spent_cost
    unpriced waits_if_prepared weightless
reserved_ledger-Follows l l' q (g ∷ denied) tokens now e =
    subst
      (λ x.
        Follows l x (weightless (new_attempt q tokens (g ∷ denied) now))
          (new_attempt q tokens (g ∷ denied) now))
      (ok_inj e)
      (record {
        tokens_held = omega arith;
        tokens_spent = omega arith;
        cost_held = omega arith;
        unknowns = omega arith;
        cost_spent = λ n k. ground (arith, k);
        not_spent = refl;
        waits = refl;
        stays_frozen = λ h. h;
      })
reserved_ledger-Follows l l' q [] none now e = cc
reserved_ledger-Follows l l' q [] (some n) now e =
    subst
      (λ x.
        Follows l x (weightless (new_attempt q (some n) [] now)) (new_attempt q (some n) [] now))
      (ok_inj e)
      (record {
        tokens_held = omega arith;
        tokens_spent = omega arith;
        cost_held = omega arith;
        unknowns = omega arith;
        cost_spent = λ n k. ground (arith, k);
        not_spent = refl;
        waits = refl;
        stays_frozen = λ h. h;
      })

pub request_retry-Balanced :
    (s s' : Snapshot) (q : Request) (a : Attempt) (now : ℕ)
    → Balanced s
    → request_retry s q now ≡ ok (s', a)
    → Balanced s'
unfolding Balanced
request_retry-Balanced s s' q a now h e =
    let r = request_retry-Requested s s' q a now e in
    let f =
      reserved_ledger-Follows s.retry_budget_ledger s'.retry_budget_ledger q (denied_gates_of s q)
        (requested_tokens s.retry_policy q) now r.ledger in
    rw (r.attempts, r.attempt)
      (append-IsBalanced s.retry_budget_ledger s'.retry_budget_ledger
        (new_attempt q (requested_tokens s.retry_policy q) (denied_gates_of s q) now) s.attempts h
        f)

-- What a command that changes one attempt leaves as it is, or follows with the ledger.
pub data Moves (s : Snapshot) : Snapshot → Type 0 where
  stays : Moves s s
  moves :
      (a b : Attempt) (after : Ledger) (now : ℕ)
      → attempt_of b.attempt_id s.attempts ≡ some a
      → Follows s.retry_budget_ledger after a b
      → Moves s (changed s b after now)

pub Moves-frozen :
    (s s' : Snapshot)
    → Moves s s'
    → s.retry_budget_ledger.frozen ≡ true
    → s'.retry_budget_ledger.frozen ≡ true
Moves-frozen s s' stays h = h
Moves-frozen s s' (moves a b after now e f) h = f.stays_frozen h

pub Moves-Balanced : (s s' : Snapshot) → Moves s s' → Balanced s → Balanced s'
Moves-Balanced s s' stays h = h
Moves-Balanced s s' (moves a b after now e f) h = changed-Balanced s a b after now e h f

pub waits_of :
    (s : Snapshot) (a : Attempt)
    → Balanced s
    → attempt_of a.attempt_id s.attempts ≡ some a
    → waits_if_prepared a ≡ true
unfolding Balanced
waits_of s a h e =
    All-attempt_of (λ y. waits_if_prepared y ≡ true) a.attempt_id a s.attempts e h.prepared_waits

-- `consume_override` at the attempt that it finds.
consume_override-Follows :
    (l : Ledger) (a : Attempt) (tokens now : ℕ)
    → a.status ≡ authorized
    → a.reserved_tokens ≡ some tokens
    → waits_if_prepared a ≡ true
    → Follows l
        (add_reservation l tokens a.reserved_cost_micros)
        a
        (record a { status = reserved; override_consumed_at = some now })
unfolding add_reservation held_tokens held_cost spent_tokens spent_cost unpriced waits_if_prepared
consume_override-Follows l a tokens now st tk w =
    let p : is_some a.pending_resolution ≡ false = not_prepared a (ground (arith, st)) w in
    record {
      tokens_held = rw (st, tk) (omega arith);
      tokens_spent = rw st (omega arith);
      cost_held = rw st (omega arith);
      unknowns = rw st (omega arith);
      cost_spent = λ n k. ground (arith, k);
      not_spent = rw st refl;
      waits = rw p refl;
      stays_frozen = λ h. h;
    }

pub consume_override-Moves :
    (s s' : Snapshot) (id : String) (a : Attempt) (now : ℕ)
    → Balanced s
    → consume_override s id now ≡ ok (s', a)
    → Moves s s'
unfolding consume_override
consume_override-Moves s s' id a now h e =
    let (b, there, e1) = >>=-eq-ok (get_attempt s id) _ e in
    let found = get_attempt-ok s id b there in
    elim (if-eq-ok (is_reserved b.status && is_some b.override_consumed_at) _ _ e1) [
      | inl (_, done) ↦ subst (Moves s) (ap (λ p. p.0) (ok_inj done)) stays
      | inr (_, fresh) ↦
          let (_, allowed, e2) =
            >>=-eq-ok (guard (is_authorized b.status) Code.invalid_state_transition) _ fresh in
          let (tokens, known, e3) = >>=-eq-ok (to_int b.reserved_tokens) _ e2 in
          let f =
            consume_override-Follows s.retry_budget_ledger b tokens now
              (authorized_of b.status (guard-eq-ok _ _ allowed))
              (to_int-ok b.reserved_tokens tokens known) (waits_of s b h found) in
          subst (Moves s) (ap (λ p. p.0) (ok_inj e3)) (
            moves b (record b { status = reserved; override_consumed_at = some now })
              (add_reservation s.retry_budget_ledger tokens b.reserved_cost_micros) now found f)
    ]
