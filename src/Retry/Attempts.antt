-- ===== src/Retry/Attempts.antt =====
-- backend/harness/services/retry_budget.py: `_attempt` and the attempt that a command changes in
-- place. The attempt of an id is the first one of the list.
use agentic_design_harness.Common.{
  if◌then◌else◌, Bool-cases, sum_by, Code, Outcome, require, ℕ, ◌+◌, ◌≤◌, String, ◌≡◌, ap, inl, inr,
  Option, none, some, List, [], ◌∷◌, arith, ◌==◌, eq_iff,
}
use agentic_design_harness.Retry.Budget.{Attempt, Snapshot}

unfoldable pub attempt_of : String → List Attempt → Option Attempt
attempt_of id [] = none
attempt_of id (a ∷ rest) = if a.attempt_id == id then some a else attempt_of id rest

-- `_attempt`
unfoldable pub get_attempt : Snapshot → String → Outcome Attempt
get_attempt snapshot id = require (attempt_of id snapshot.attempts) Code.validation_error

-- The list after the attempt of an id has been changed into `b`.
unfoldable pub replace : String → Attempt → List Attempt → List Attempt
replace id b [] = []
replace id b (a ∷ rest) = if a.attempt_id == id then b ∷ rest else a ∷ replace id b rest

pub sum_by-replace :
    (f : Attempt → ℕ) (id : String) (a b : Attempt) (rest : List Attempt)
    → attempt_of id rest ≡ some a
    → sum_by f (replace id b rest) + f a ≡ sum_by f rest + f b
unfolding attempt_of replace
sum_by-replace f id a b [] h = cc
sum_by-replace f id a b (x ∷ rest) h = elim (Bool-cases (x.attempt_id == id)) [
  | inl e ↦ let same : x ≡ a = ground arith in rw e (ground (arith, same))
  | inr e ↦ rw e (omega (arith, sum_by-replace f id a b rest (ground arith)))
]

pub attempt_of-replace :
    (id j : String) (a b : Attempt) (rest : List Attempt)
    → attempt_of id rest ≡ some a
    → b.attempt_id ≡ id
    → attempt_of j (replace id b rest) ≡ (if id == j then some b else attempt_of j rest)
unfolding attempt_of replace
attempt_of-replace id j a b [] h e = cc
attempt_of-replace id j a b (x ∷ rest) h e = ground (
  arith,
  attempt_of-replace id j a b rest,
  eq_iff x.attempt_id id,
  eq_iff x.attempt_id j,
  eq_iff id j,
  eq_iff b.attempt_id j,
)

pub attempt_of-id :
    (id : String) (a : Attempt) (rest : List Attempt)
    → attempt_of id rest ≡ some a
    → a.attempt_id ≡ id
unfolding attempt_of
attempt_of-id id a [] h = cc
attempt_of-id id a (x ∷ rest) h = ground (arith, attempt_of-id id a rest, eq_iff x.attempt_id id)

pub le-sum_by :
    (f : Attempt → ℕ) (id : String) (a : Attempt) (rest : List Attempt)
    → attempt_of id rest ≡ some a
    → f a ≤ sum_by f rest
unfolding attempt_of
le-sum_by f id a [] h = cc
le-sum_by f id a (x ∷ rest) h = elim (Bool-cases (x.attempt_id == id)) [
  | inl e ↦ let same : x ≡ a = ground arith in ground (arith, ap f same)
  | inr e ↦ omega (arith, le-sum_by f id a rest (ground arith))
]
