-- ===== src/Storage/Restart.antt =====
-- backend/harness/storage/store.py: the start of the store, `FileStateStore.recover`, for one task
-- directory whose journals are already cut back to whole lines. It records the results of committed
-- commands, repairs the snapshot files, and reconciles the files of a plan's parts. A payload's fields
-- are read by functions that are arguments; `same` compares payloads, `recovery_key` is the format of an
-- idempotency key, `path` the file of one, and `now` the time of the start, the same for all its puts. The summary in the
-- workspace and the two indexes, which nothing below reads, are left out, and so are the files that a
-- repair writes before it raises.
pub mod Frame
pub mod Durability
pub mod Writes
use agentic_design_harness.Common.{
  if◌then◌else◌, elem, value_error, Outcome, ok, err, fault, ◌>>=◌, ◌>>◌, ℕ, String, Bool, false,
  Option, none, some, List, [], ◌∷◌, map, ◌==◌,
}
use agentic_design_harness.Storage.{
  Table, Key, drop, Wrapper, Event, Content, readable, unreadable, Directory,
}
use agentic_design_harness.Storage.Identifier.{validate_identifier}
use agentic_design_harness.Storage.Repository.{
  Repository, Commit, object_key, revision_of, read_wrapper, revision, put_object,
}
use agentic_design_harness.Storage.Recovery.{repair_snapshots}
use agentic_design_harness.Storage.Idempotency.{Registry, remember_digest}

-- The repositories of a plan and of its parts, with the fields of their payloads.
pub record Projectors (P : Type 0) : Type 0 where
  pub plan : Repository P
  pub task : Repository P
  pub stage : Repository P
  pub instance_repo : Repository P
  pub task_of : P → P
  pub stages_of : P → List P
  pub instances_of : P → List P
  pub stage_id : P → String
  pub instance_id : P → String

abbrev remember_rest :
    {R : Type 0}
    → Registry R
    → Outcome (Registry R)
    → (Registry R → Outcome (Unit {0}) × Registry R)
    → Outcome (Unit {0}) × Registry R
remember_rest before (ok next) rest = rest next
remember_rest before (err e) rest = (err e, before)
remember_rest before (fault e) rest = (fault e, before)

module _ {P R : Type 0} (path : String → String → String) where
  -- One round of `_recover_idempotency_results`
  unfoldable pub remember_event : String → Event P R → Registry R → Outcome (Registry R)
  unfolding remember_digest
  remember_event task_id e registry = elim e.command_result [
    | none ↦ ok registry
    | some result ↦ elim e.request_sha256 [
      | none ↦ ok registry
      | some sha ↦ do
        (_, next) ←
            remember_digest path
              (record {
                scope = task_id;
                idempotency_key = e.idempotency_key;
                command = e.command;
                request_sha256 = sha;
              })
              result registry
        ok next
    ]
  ]

  -- `_recover_idempotency_results`: an error leaves what was recorded before it.
  unfoldable pub recover_idempotency_results :
      String → List (Event P R) → Registry R → Outcome (Unit {0}) × Registry R
  unfolding remember_event
  recover_idempotency_results task_id [] registry = (ok tt, registry)
  recover_idempotency_results task_id (e ∷ events) registry =
      remember_rest registry (remember_event task_id e registry)
        (recover_idempotency_results task_id events)

-- `current is not None and current["payload"] == payload`
abbrev pub holds : {P : Type 0} → (P → P → Bool) → P → Option (Wrapper P) → Bool
holds same payload none = false
holds same payload (some w) = same w.payload payload

-- The payloads of `SnapshotRepository.list`, in the order of the table.
unfoldable pub list_payloads : {P : Type 0} → Repository P → Table (Content P) → Outcome (List P)
list_payloads repo [] = ok []
list_payloads repo ((k, c) ∷ files) =
    let rest = list_payloads repo files in
    if k.object_type == repo.object_type
    then elim c [
      | unreadable ↦ fault value_error
      | readable w ↦
          if w.object_type == repo.object_type
          then (do payloads ← rest; ok (w.payload ∷ payloads))
          else rest
    ]
    else rest

abbrev pub State : Type 0 → Type 0 → Type 0
State P R = Outcome (Unit {0}) × Directory P R

-- The next statement, unless one has raised.
abbrev pub and_then : {P R : Type 0} → State P R → (Directory P R → State P R) → State P R
and_then (ok _, dir) next = next dir
and_then (err e, dir) next = (err e, dir)
and_then (fault e, dir) next = (fault e, dir)

-- The statement that uses what was read, unless the read has raised.
abbrev pub reading : {P R A : Type 0} → Directory P R → Outcome A → (A → State P R) → State P R
reading dir (ok a) next = next a
reading dir (err e) next = (err e, dir)
reading dir (fault e) next = (fault e, dir)

abbrev pub without_result : {P R : Type 0} → Outcome (Wrapper P) × Directory P R → State P R
without_result (ok _, dir) = (ok tt, dir)
without_result (err e, dir) = (err e, dir)
without_result (fault e, dir) = (fault e, dir)

-- What a start leaves: its warnings or its error, the directory and the registry.
abbrev pub Started : Type 0 → Type 0 → Type 0
Started P R = Outcome (List Key) × (Directory P R × Registry R)

abbrev pub reconciled_start : {P R : Type 0} → List Key → Registry R → State P R → Started P R
reconciled_start warnings registry (ok _, dir) = (ok warnings, (dir, registry))
reconciled_start warnings registry (err e, dir) = (err e, (dir, registry))
reconciled_start warnings registry (fault e, dir) = (fault e, (dir, registry))

module _ {P R : Type 0} (ps : Projectors P) (same : P → P → Bool)
    (recovery_key : ℕ → String → String → String) (task_id : String) (now : ℕ) where
  -- The put of one projection, under the key of the plan's revision.
  abbrev pub projection_commit : ℕ → Repository P → String → P → ℕ → Commit P R
  projection_commit plan_revision repo object_id payload expected = record {
    object_id = object_id;
    payload = payload;
    expected_revision = expected;
    actor = record { actor_type = "system"; actor_id = "startup_recovery" };
    command = "reconcile_plan_projection";
    idempotency_key = recovery_key plan_revision repo.object_type object_id;
    command_result = none;
    request_sha256 = none;
    now = now;
    crash = none;
  }

  -- One round of the loop over the projections
  unfoldable pub reconcile_one : ℕ → Repository P → String → P → Directory P R → State P R
  unfolding read_wrapper put_object
  reconcile_one plan_revision repo object_id payload dir =
      reading dir (read_wrapper repo task_id object_id dir) (λ current.
        if holds same payload current
        then (ok tt, dir)
        else without_result (
            put_object repo task_id
              (projection_commit plan_revision repo object_id payload (revision_of current)) dir))

  unfoldable pub reconcile_each :
      ℕ → Repository P → (P → String) → List P → Directory P R → State P R
  unfolding reconcile_one
  reconcile_each plan_revision repo id_of [] dir = (ok tt, dir)
  reconcile_each plan_revision repo id_of (x ∷ xs) dir =
      and_then (reconcile_one plan_revision repo (id_of x) x dir)
        (reconcile_each plan_revision repo id_of xs)

  -- The unlinks of the listed payloads whose ids are not in the plan.
  unfoldable pub unlink_absent :
      Repository P → (P → String) → List String → List P → Directory P R → State P R
  unfolding validate_identifier
  unlink_absent repo id_of active [] dir = (ok tt, dir)
  unlink_absent repo id_of active (x ∷ xs) dir =
      let skipped = unlink_absent repo id_of active xs dir in
      let unlinked =
        unlink_absent repo id_of active xs
          (record dir { files = drop (object_key repo (id_of x)) dir.files }) in
      if elem (id_of x) active
      then skipped
      else reading dir (validate_identifier (id_of x)) (λ _. unlinked)

  unfoldable pub retire_one : Repository P → (P → String) → List P → Directory P R → State P R
  unfolding list_payloads unlink_absent validate_identifier
  retire_one repo id_of parts dir = reading dir (validate_identifier task_id) (λ _.
      reading dir (list_payloads repo dir.files)
        (λ payloads. unlink_absent repo id_of (map id_of parts) payloads dir))

  -- `retire_plan_projections`
  unfoldable pub retire_plan_projections : P → Directory P R → State P R
  unfolding retire_one
  retire_plan_projections plan dir =
      and_then (retire_one ps.stage ps.stage_id (ps.stages_of plan) dir)
        (retire_one ps.instance_repo ps.instance_id (ps.instances_of plan))

  -- The puts and the unlinks for a plan at its revision.
  unfoldable pub reconcile_plan : ℕ → P → Directory P R → State P R
  unfolding reconcile_one reconcile_each retire_plan_projections
  reconcile_plan revision plan dir =
      and_then (reconcile_one revision ps.task task_id (ps.task_of plan) dir) (λ dir.
        and_then (reconcile_each revision ps.stage ps.stage_id (ps.stages_of plan) dir) (λ dir.
          and_then
            (reconcile_each revision ps.instance_repo ps.instance_id (ps.instances_of plan) dir)
            (retire_plan_projections plan)))

  abbrev pub reconcile_found : Directory P R → Option (Wrapper P) → State P R
  reconcile_found dir none = (ok tt, dir)
  reconcile_found dir (some w) = reconcile_plan w.revision w.payload dir

  -- `_reconcile_plan_projections`
  unfoldable pub reconcile_plan_projections : Directory P R → State P R
  unfolding reconcile_plan read_wrapper
  reconcile_plan_projections dir =
      reading dir (read_wrapper ps.plan task_id task_id dir) (reconcile_found dir)

  abbrev pub repaired_start :
      Directory P R → Registry R → Outcome (Directory P R × List Key) → Started P R
  repaired_start dir registry (ok (repaired, warnings)) =
      reconciled_start warnings registry (reconcile_plan_projections repaired)
  repaired_start dir registry (err e) = (err e, (dir, registry))
  repaired_start dir registry (fault e) = (fault e, (dir, registry))

  abbrev pub remembered_start :
      (String → Bool) → Directory P R → Outcome (Unit {0}) × Registry R → Started P R
  remembered_start known dir (ok _, registry) =
      repaired_start dir registry (repair_snapshots known same dir)
  remembered_start known dir (err e, registry) = (err e, (dir, registry))
  remembered_start known dir (fault e, registry) = (fault e, (dir, registry))

  -- `FileStateStore.recover`
  unfoldable pub recover :
      (String → String → String) → (String → Bool) → Directory P R → Registry R → Started P R
  unfolding reconcile_plan_projections recover_idempotency_results repair_snapshots
  recover path known dir registry =
      remembered_start known dir (recover_idempotency_results path task_id dir.events registry)
