-- ===== src/Retry/Releases.antt =====
-- backend/harness/services/retry_budget.py: `settle` leaves the ledger in balance with the attempts.
use agentic_design_harness.Common.{
  eqb, if◌then◌else◌, is_some, Code, ok, guard, >>=-eq-ok, ok_inj, if-eq-ok, ℕ, ◌+◌, ◌≤◌, String,
  ◌≡◌, refl, ap, subst, inl, inr, Bool, true, false, ◌&&◌, not, Option, none, some, arith,
}
use agentic_design_harness.Storage.{Actor}
use agentic_design_harness.Retry.Budget.{reserved, settled, exceeded, Ledger, Attempt, Snapshot}
use agentic_design_harness.Retry.Attempts.{attempt_of, get_attempt, le-sum_by}
use agentic_design_harness.Retry.Steps.{amount, to_int, is_reserved, is_settled}
use agentic_design_harness.Retry.Settlement.{
  same_number, may_settle, exceeds, settled_cost, one_if_none, settled_ledger, settled_attempt,
  settle_attempt, settle,
}
use agentic_design_harness.Retry.Accounts.{
  held_tokens, held_cost, spent_tokens, spent_cost, unpriced, waits_if_prepared, Balanced, Follows,
}
use agentic_design_harness.Retry.Cases.{not_prepared, reserved_of, to_int-ok, get_attempt-ok}
use agentic_design_harness.Retry.Conservation.{Moves, stays, moves, waits_of}

pub over_or_settled : (over : Bool) → is_settled (if over then exceeded else settled) ≡ true
over_or_settled true = refl
over_or_settled false = refl

over_not_reserved : (over : Bool) → is_reserved (if over then exceeded else settled) ≡ false
over_not_reserved true = refl
over_not_reserved false = refl

priced-settlement :
    (u c n : ℕ) (total : Option ℕ)
    → total ≡ (if eqb u 0 then some n else none)
    → (if eqb u 0 then some (amount total + c) else total)
      ≡ (if eqb (u + 0) 0 then some (n + c) else none)
priced-settlement u c n none k = ground arith
priced-settlement u c n (some m) k = ground arith

settled_cost-lem :
    (l : Ledger) (cost : Option ℕ) (n : ℕ)
    → l.retry_cost_micros_settled ≡ (if eqb l.unknown_cost_settlements 0 then some n else none)
    → settled_cost l cost ≡ (
        if eqb (l.unknown_cost_settlements + one_if_none cost) 0
        then some (n + amount cost)
        else none)
unfolding settled_cost
settled_cost-lem l none n k = ground arith
settled_cost-lem l (some c) n k =
    priced-settlement l.unknown_cost_settlements c n l.retry_cost_micros_settled k

unknown_settlement :
    (u : ℕ) (cost : Option ℕ)
    → u + one_if_none cost + 0 ≡ u + (if true && not (is_some cost) then 1 else 0)
unknown_settlement u none = omega arith
unknown_settlement u (some c) = omega arith

-- What usage that has been settled does to the ledger, given that the reserved amounts are there.
settled_ledger-Follows :
    (l : Ledger) (a : Attempt) (tokens actual : ℕ) (cost : Option ℕ) (now : ℕ)
    → a.status ≡ reserved
    → a.reserved_tokens ≡ some tokens
    → tokens ≤ l.retry_tokens_reserved
    → amount a.reserved_cost_micros ≤ l.retry_cost_micros_reserved
    → waits_if_prepared a ≡ true
    → Follows l
        (settled_ledger l tokens a.reserved_cost_micros actual cost)
        a
        (settled_attempt a tokens actual cost now)
unfolding settled_ledger settled_attempt held_tokens held_cost spent_tokens spent_cost unpriced
    waits_if_prepared
settled_ledger-Follows l a tokens actual cost now st tk fits fits' w =
    let p : is_some a.pending_resolution ≡ false = not_prepared a (ground (arith, st)) w in
    let over = exceeds tokens a.reserved_cost_micros actual cost in
    let done = over_or_settled over in
    let free = over_not_reserved over in
    record {
      tokens_held = rw (st, tk, free) (omega (arith, fits));
      tokens_spent = rw (st, done) (omega arith);
      cost_held = rw (st, free) (omega (arith, fits'));
      unknowns = rw (st, done) (unknown_settlement l.unknown_cost_settlements cost);
      cost_spent = λ n k. rw done (settled_cost-lem l cost n k);
      not_spent = rw st refl;
      waits = rw p refl;
      stays_frozen = λ h. ground (arith, h);
    }

reserved_there :
    (s : Snapshot) (a : Attempt) (tokens : ℕ)
    → Balanced s
    → attempt_of a.attempt_id s.attempts ≡ some a
    → a.status ≡ reserved
    → a.reserved_tokens ≡ some tokens
    → (tokens ≤ s.retry_budget_ledger.retry_tokens_reserved)
      × (amount a.reserved_cost_micros ≤ s.retry_budget_ledger.retry_cost_micros_reserved)
unfolding Balanced held_tokens held_cost
reserved_there s a tokens h e st tk =
    let t : held_tokens a ≡ tokens = rw (st, tk) refl in
    let c : held_cost a ≡ amount a.reserved_cost_micros = rw st refl in
    let t' = le-sum_by held_tokens a.attempt_id a s.attempts e in
    let c' = le-sum_by held_cost a.attempt_id a s.attempts e in
    (omega (arith, t, t', h.tokens_reserved), omega (arith, c, c', h.cost_reserved))

settle_attempt-Moves :
    (s s' : Snapshot) (b a : Attempt) (actual : ℕ) (cost : Option ℕ) (now : ℕ)
    → Balanced s
    → attempt_of b.attempt_id s.attempts ≡ some b
    → settle_attempt s b actual cost now ≡ ok (s', a)
    → Moves s s'
unfolding settle_attempt settled_attempt
settle_attempt-Moves s s' b a actual cost now h found e =
    elim (if-eq-ok (is_settled b.status) _ _ e) [
      | inl (_, again) ↦
          elim (if-eq-ok
            (same_number b.actual_tokens (some actual) && same_number b.actual_cost_micros cost) _ _
            again) [
              | inl (_, same) ↦ subst (Moves s) (ap (λ p. p.0) (ok_inj same)) stays
              | inr (_, differs) ↦ cc
            ]
      | inr (_, fresh) ↦ elim (if-eq-ok (not (is_reserved b.status)) _ _ fresh) [
        | inl (_, refused) ↦ cc
        | inr (held, goes) ↦
            let (tokens, known, e3) = >>=-eq-ok (to_int b.reserved_tokens) _ goes in
            let st : b.status ≡ reserved = reserved_of b.status (ground (arith, held)) in
            let tk = to_int-ok b.reserved_tokens tokens known in
            let (fits, fits') = reserved_there s b tokens h found st tk in
            let f =
              settled_ledger-Follows s.retry_budget_ledger b tokens actual cost now st tk fits fits'
                (waits_of s b h found) in
            subst (Moves s) (ap (λ p. p.0) (ok_inj e3))
              (moves b (settled_attempt b tokens actual cost now) _ now found f)
      ]
    ]

pub settle-Moves :
    (s s' : Snapshot) (id : String) (a : Attempt) (actual : ℕ) (cost : Option ℕ) (actor : Actor)
    (now : ℕ)
    → Balanced s
    → settle s id actual cost actor now ≡ ok (s', a)
    → Moves s s'
unfolding settle
settle-Moves s s' id a actual cost actor now h e =
    let (b, there, e1) = >>=-eq-ok (get_attempt s id) _ e in
    let (_, allowed, e2) =
      >>=-eq-ok (guard (may_settle actor b.agent_type) Code.validation_error) _ e1 in
    settle_attempt-Moves s s' b a actual cost now h (get_attempt-ok s id b there) e2
