-- ===== src/Retry/Lineage.antt =====
-- backend/harness/services/retry_lineage.py: from which model call a retry descends. The registered
-- attempts and the digest of storage/atomic.py are parameters.
pub mod Walk
use agentic_design_harness.Common.{
  if◌then◌else◌, is_some, length, elem, Code, validation_error, idempotency_conflict, runtime_error,
  Outcome, ok, err, fault, guard, require, ◌>>=◌, ◌>>◌, Dict, lookup, index_by, ℕ, zero, suc, ◌+◌,
  String, Bool, true, false, ◌&&◌, ◌||◌, not, Option, none, some, List, [], ◌∷◌, ◌==◌,
}

-- A field of a stored attempt that may be missing or null, a text, or something else.
pub data Binding : Type 0 where
  absent other_value : Binding
  text : String → Binding

-- What the lineage reads of a stored attempt.
pub record Link : Type 0 where
  pub attempt_id : String
  pub retry_of_attempt_id : String
  pub instance_id : String
  pub retry_group_id : String
  pub root_attempt_id : Binding
  pub root_instance_id : Binding

pub record Root : Type 0 where
  pub attempt_id : String
  pub instance_id : String

abbrev pub Lineage : Type 0
Lineage = Root × String

abbrev is_absent : Binding → Bool
is_absent absent = true
is_absent _ = false

-- The root that both bindings of an attempt name.
unfoldable pub bound_root : Binding → Binding → Outcome Root
bound_root (text a) (text i) = ok (record { attempt_id = a; instance_id = i })
bound_root _ _ = err Code.validation_error

unfoldable pub has_binding : Link → Bool
has_binding l = not (is_absent l.root_attempt_id) || not (is_absent l.root_instance_id)

-- The loop of `_lineage_root`; `none` where the fuel runs out.
unfoldable pub lineage_root : ℕ → Dict Link → List String → Link → Option (Outcome Root)
lineage_root zero attempts visited current = none
lineage_root (suc fuel) attempts visited current =
    if elem current.attempt_id visited
    then some (err Code.validation_error)
    else if has_binding current
    then some (bound_root current.root_attempt_id current.root_instance_id)
    else elim (lookup current.retry_of_attempt_id attempts) [
      | none ↦ some (
          ok (record {
            attempt_id = current.retry_of_attempt_id;
            instance_id = current.instance_id;
          }))
      | some predecessor ↦ lineage_root fuel attempts (current.attempt_id ∷ visited) predecessor
    ]

-- Enough rounds: one for each attempt, and one more for the attempt it started with.
abbrev pub rounds : Dict Link → ℕ
rounds attempts = length attempts + 2

-- The outcome of the loop; that the fuel suffices is `lineage_root-ends`.
abbrev pub settled_root : Option (Outcome Root) → Outcome Root
settled_root none = fault runtime_error
settled_root (some o) = o

-- The files of registered model calls: the task and instance that the file of an attempt names.
pub record Registered : Type 0 where
  pub attempt_id : String
  pub task_id : String
  pub instance_id : String

abbrev belongs : String → Root → Registered → Bool
belongs task_id root r =
    (r.attempt_id == root.attempt_id)
    && (r.task_id == task_id)
    && (r.instance_id == root.instance_id)

module _ (registered : String → Option Registered) (group_digest : String → String → String) where
  -- `_registered_root_attempt`
  unfoldable pub check_registered : String → Root → Outcome (Unit {0})
  check_registered task_id root = do
    r ← require (registered root.attempt_id) Code.validation_error
    guard (belongs task_id root r) Code.validation_error

  unfoldable pub derive : String → Root → Outcome Lineage
  unfolding check_registered
  derive task_id root = do
    check_registered task_id root
    ok (root, group_digest task_id root.attempt_id)

  abbrev resolve_parent : Dict Link → String → String → String → Option Link → Outcome Lineage
  resolve_parent attempts task_id instance_id retry_of none =
      derive task_id (record { attempt_id = retry_of; instance_id = instance_id })
  resolve_parent attempts task_id instance_id retry_of (some parent) = do
    root ← settled_root (lineage_root (rounds attempts) attempts [] parent)
    lineage ← derive task_id root
    guard (parent.retry_group_id == lineage.1) Code.validation_error
    ok lineage

  -- `RetryLineageAuthority.resolve`
  unfoldable pub resolve_lineage : List Link → String → String → String → Outcome Lineage
  unfolding derive lineage_root
  resolve_lineage attempts task_id instance_id retry_of =
      let by_id = index_by (λ (l : Link). l.attempt_id) attempts in
      resolve_parent by_id task_id instance_id retry_of (lookup retry_of by_id)

  -- `ensure_attempt_id_available`
  unfoldable pub ensure_attempt_id_available : String → Outcome (Unit {0})
  ensure_attempt_id_available attempt_id =
      guard (not (is_some (registered attempt_id))) Code.idempotency_conflict
