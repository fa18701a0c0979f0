-- ===== src/Retry/Limits.antt =====
-- backend/harness/services/retry_budget.py: a retry that is granted without a person stays within
-- the limits of the policy.
use agentic_design_harness.Common.{
  any, count, Code, Fault, ok, fault, ok_inj, >>=-eq-fault, guard->>-eq-fault, lookup, ℕ, ◌+◌, ◌≤◌,
  ◌≡◌, refl, sym, ap, ◌∙◌, subst, ◌≢◌, ◌⊎◌, inl, inr, Bool, ◌&&◌, not, Option, none, some, List, [],
  ◌∷◌, ◌++◌, arith, ◌==◌,
}
use agentic_design_harness.Retry.Budget.{
  pending_approval, reserved, Gate, Ledger, Attempt, Snapshot,
}
use agentic_design_harness.Retry.Gates.{counts, group_count, HasRoom}
use agentic_design_harness.Retry.Room.{gates-HasRoom}
use agentic_design_harness.Retry.Steps.{
  Request, overrides, requested_tokens, new_attempt, add_reservation, reserved_ledger,
  request_retry,
}
use agentic_design_harness.Retry.Results.{denied_gates_of, request_retry-Requested}

count-append_one :
    (p : Attempt → Bool) (xs : List Attempt) (a : Attempt) → count p (xs ++ a ∷ []) ≤ count p xs + 1
count-append_one p [] a = ground arith
count-append_one p (x ∷ xs) a = ground (arith, count-append_one p xs a)

granted_ledger :
    (l l' : Ledger) (denied : List Gate) (tokens cost : Option ℕ) (n : ℕ)
    → denied ≡ []
    → tokens ≡ some n
    → reserved_ledger l denied tokens cost ≡ ok l'
    → add_reservation l n cost ≡ l'
unfolding reserved_ledger
granted_ledger l l' [] (some m) cost n h k e =
    let same : m ≡ n = ground (arith, k) in
    subst (λ x. add_reservation l x cost ≡ l') same (ok_inj e)
granted_ledger l l' [] none cost n h k e = cc
granted_ledger l l' (g ∷ rest) tokens cost n h k e = cc

List-cases : (xs : List Gate) → (xs ≡ []) ⊎ ((x : Gate) × (rest : List Gate) × (xs ≡ x ∷ rest))
List-cases [] = inl refl
List-cases (x ∷ rest) = inr (x, rest, refl)

-- The room that a request needs.
unfoldable pub RoomFor : Snapshot → Request → Type 0
RoomFor s q =
    HasRoom s s.retry_policy q.retry_group_id (requested_tokens s.retry_policy q)
      q.estimated_cost_micros q.price_catalog_revision

granted :
    (s : Snapshot) (q : Request) (denied : List Gate) (now : ℕ)
    → (new_attempt q (requested_tokens s.retry_policy q) denied now).status ≡ reserved
    → denied ≡ []
unfolding new_attempt
granted s q [] now h = refl
granted s q (g ∷ denied) now h = cc

-- A retry is granted at once exactly when the budget has room for it; otherwise the attempt waits
-- for an approval, and the ledger is as before.
pub request_retry-decides :
    (s s' : Snapshot) (q : Request) (a : Attempt) (now : ℕ)
    → request_retry s q now ≡ ok (s', a)
    → (a.status ≡ reserved) × RoomFor s q
      ⊎ (a.status ≡ pending_approval)
        × ¬ RoomFor s q
        × (s'.retry_budget_ledger ≡ s.retry_budget_ledger)
unfolding RoomFor denied_gates_of new_attempt reserved_ledger
request_retry-decides s s' q a now e =
    let r = request_retry-Requested s s' q a now e in
    let iff =
      gates-HasRoom s s.retry_policy q.retry_group_id (requested_tokens s.retry_policy q)
        q.estimated_cost_micros q.price_catalog_revision in
    elim (List-cases (denied_gates_of s q)) [
      | inl none_shut ↦ inl (rw (r.attempt, none_shut) refl, iff.0 none_shut)
      | inr (g, rest, shut) ↦
          let kept : ok s.retry_budget_ledger ≡ ok s'.retry_budget_ledger =
            subst
              (λ d.
                reserved_ledger s.retry_budget_ledger d (requested_tokens s.retry_policy q)
                  q.estimated_cost_micros
                ≡ ok s'.retry_budget_ledger)
              shut r.ledger in
          inr (
            rw (r.attempt, shut) refl,
            λ room. absurd (ground (arith, iff.1 room, shut)),
            sym (ok_inj kept),
          )
    ]

reserved_ledger-no_fault :
    (s : Snapshot) (q : Request) (denied : List Gate) (f : Fault)
    → denied_gates_of s q ≡ denied
    → reserved_ledger s.retry_budget_ledger denied
        (requested_tokens s.retry_policy q)
        q.estimated_cost_micros
      ≢ fault f
unfolding reserved_ledger denied_gates_of
reserved_ledger-no_fault s q (g ∷ denied) f all_open e = cc
reserved_ledger-no_fault s q [] f all_open e =
    let room =
      (gates-HasRoom s s.retry_policy q.retry_group_id (requested_tokens s.retry_policy q)
          q.estimated_cost_micros q.price_catalog_revision).0
        all_open in
    let made : reserved_ledger s.retry_budget_ledger [] (some room.tokens) q.estimated_cost_micros
        ≡ fault f =
      subst (λ t. reserved_ledger s.retry_budget_ledger [] t q.estimated_cost_micros ≡ fault f)
        room.tokens_known e in
    cc

-- A retry is never denied or granted by a fault of the program: a granted one has an amount.
pub request_retry-no_fault :
    (s : Snapshot) (q : Request) (now : ℕ) (f : Fault) → request_retry s q now ≢ fault f
unfolding request_retry denied_gates_of
request_retry-no_fault s q now f e =
    let (_, e1) =
      guard->>-eq-fault (not (any (λ (x : Attempt). x.attempt_id == q.attempt_id) s.attempts))
        Code.idempotency_conflict _ e in
    let (_, e2) =
      guard->>-eq-fault
        (not (
          overrides (lookup q.agent_type s.retry_policy.retry_token_reservation_by_agent)
            q.reservation_tokens))
        Code.validation_error _ e1 in
    elim (>>=-eq-fault
      (reserved_ledger s.retry_budget_ledger (denied_gates_of s q)
        (requested_tokens s.retry_policy q) q.estimated_cost_micros)
      _ e2) [
        | inl stuck ↦ reserved_ledger-no_fault s q (denied_gates_of s q) f refl stuck
        | inr (l, made, e3) ↦ cc
      ]

-- After a retry that is granted at once, the tokens settled and reserved are within the limit of
-- the policy, and the group has no more retries than the policy allows.
pub request_retry-within :
    (s s' : Snapshot) (q : Request) (a : Attempt) (now : ℕ)
    → request_retry s q now ≡ ok (s', a)
    → a.status ≡ reserved
    → (s'.retry_budget_ledger.retry_tokens_settled + s'.retry_budget_ledger.retry_tokens_reserved
        ≤ s'.retry_policy.max_auto_retry_tokens_task)
      × (group_count q.retry_group_id s'.attempts
          ≤ s'.retry_policy.max_auto_retries_per_retry_group)
unfolding denied_gates_of new_attempt add_reservation group_count
request_retry-within s s' q a now e st =
    let r = request_retry-Requested s s' q a now e in
    let all_open =
      granted s q (denied_gates_of s q) now (ap (λ x. x.status) (sym r.attempt) ∙ st) in
    let room =
      (gates-HasRoom s s.retry_policy q.retry_group_id (requested_tokens s.retry_policy q)
          q.estimated_cost_micros q.price_catalog_revision).0
        all_open in
    let same =
      granted_ledger s.retry_budget_ledger s'.retry_budget_ledger (denied_gates_of s q)
        (requested_tokens s.retry_policy q) q.estimated_cost_micros room.tokens all_open
        room.tokens_known r.ledger in
    let one_more =
      count-append_one (λ (x : Attempt). (x.retry_group_id == q.retry_group_id) && counts x.status)
        s.attempts a in
    let held = ap (λ l. l.retry_tokens_reserved) same in
    let spent = ap (λ l. l.retry_tokens_settled) same in
    let policy : s'.retry_policy ≡ s.retry_policy = r.policy in
    (
      rw policy (omega (arith, room.tokens_left, held, spent)),
      rw (policy, r.attempts) (omega (arith, one_more, room.retries_left)),
    )
