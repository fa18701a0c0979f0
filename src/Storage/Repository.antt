-- ===== src/Storage/Repository.antt =====
-- backend/harness/storage/repository.py: `SnapshotRepository`. A write appends its event before it
-- replaces the snapshot file; the indexes that follow are rebuilt from the files and left out.
use agentic_design_harness.Common.{
  eqb, if◌then◌else◌, is_some, Code, runtime_error, value_error, simulated_crash, Outcome, ok, err,
  fault, ◌>>=◌, ◌>>◌, guard, ℕ, ◌+◌, max, String, Bool, true, false, ◌&&◌, ◌||◌, not, Option, none,
  some, List, [], ◌∷◌, ◌++◌, ◌==◌,
}
use agentic_design_harness.Storage.{
  Key, find, put, drop, Actor, object_committed, object_removed, Wrapper, Event, Content, readable,
  unreadable, Directory, commits,
}
use agentic_design_harness.Storage.Identifier.{validate_identifier}

pub record Repository (P : Type 0) : Type 0 where
  pub object_type : String
  pub validator : P → Outcome (Unit {0})

-- The named commit points at which a test may interrupt a write.
pub data Checkpoint : Type 0 where
  after_event_append after_snapshot_rename after_index_update : Checkpoint

-- The arguments of `put`, with the time of the commit.
pub record Commit (P R : Type 0) : Type 0 where
  pub object_id : String
  pub payload : P
  pub expected_revision : ℕ
  pub actor : Actor
  pub command : String
  pub idempotency_key : String
  pub command_result : Option R
  pub request_sha256 : Option String
  pub now : ℕ
  pub crash : Option Checkpoint

abbrev pub object_key : {P : Type 0} → Repository P → String → Key
object_key repo object_id = record { object_type = repo.object_type; object_id = object_id }

module _ {P : Type 0} where
  -- The part of `read_wrapper` that opens the file.
  unfoldable pub read_content : String → Option (Content P) → Outcome (Option (Wrapper P))
  read_content object_type none = ok none
  read_content object_type (some unreadable) = fault value_error
  read_content object_type (some (readable w)) =
      if w.object_type == object_type then ok (some w) else fault runtime_error

  abbrev pub revision_of : Option (Wrapper P) → ℕ
  revision_of none = 0
  revision_of (some w) = w.revision

module _ {P R : Type 0} where
  unfoldable pub read_wrapper :
      Repository P → String → String → Directory P R → Outcome (Option (Wrapper P))
  read_wrapper repo task_id object_id dir = do
    validate_identifier task_id
    validate_identifier object_id
    read_content repo.object_type (find (object_key repo object_id) dir.files)

  -- `SnapshotRepository.revision`
  unfoldable pub revision : Repository P → String → String → Directory P R → Outcome ℕ
  revision repo task_id object_id dir = do
    current ← read_wrapper repo task_id object_id dir
    ok (revision_of current)

  -- `max(..., default=0)` over the committed events of an object
  unfoldable pub newest_revision : Key → List (Event P R) → ℕ
  newest_revision k [] = 0
  newest_revision k (e ∷ es) =
      let rest = newest_revision k es in if commits k e then max e.revision rest else rest

  -- The revision that the next one follows: a removed object goes on from its events.
  unfoldable pub base_revision : Key → Option (Wrapper P) → List (Event P R) → ℕ
  unfolding newest_revision
  base_revision k none events = newest_revision k events
  base_revision k (some w) events = w.revision

  unfoldable pub make_wrapper : Key → Commit P R → ℕ → Wrapper P
  make_wrapper k c base = record {
    object_type = k.object_type;
    object_id = k.object_id;
    revision = base + 1;
    payload = c.payload;
    committed_at = c.now;
  }

  unfoldable pub make_event : Commit P R → Wrapper P → Event P R
  make_event c w = record {
    event_type = object_committed;
    object_type = w.object_type;
    object_id = w.object_id;
    revision = w.revision;
    actor = c.actor;
    command = c.command;
    idempotency_key = c.idempotency_key;
    occurred_at = w.committed_at;
    snapshot = some w;
    command_result = c.command_result;
    request_sha256 = c.request_sha256;
  }

  abbrev pub append_event : Event P R → Directory P R → Directory P R
  append_event e dir = record dir { events = dir.events ++ e ∷ [] }

  abbrev pub write_file : Key → Wrapper P → Directory P R → Directory P R
  write_file k w dir = record dir { files = put k (readable w) dir.files }

  -- The outcome and the directory after the two durable writes of `put`, or after the first alone
  -- where a test interrupts it there.
  unfoldable pub interrupt :
      Option Checkpoint
      → Wrapper P
      → Directory P R
      → Directory P R
      → Outcome (Wrapper P) × Directory P R
  interrupt none w appended written = (ok w, written)
  interrupt (some after_event_append) w appended written = (fault simulated_crash, appended)
  interrupt (some after_snapshot_rename) w appended written = (fault simulated_crash, written)
  interrupt (some after_index_update) w appended written = (fault simulated_crash, written)

  unfoldable pub commit_wrapper :
      Key → Commit P R → Wrapper P → Directory P R → Outcome (Wrapper P) × Directory P R
  commit_wrapper k c w dir =
      let appended = append_event (make_event c w) dir in
      interrupt c.crash w appended (write_file k w appended)

  -- All that `put` checks and reads before its first write.
  unfoldable pub prepare_put :
      Repository P → String → Commit P R → Directory P R → Outcome (Wrapper P)
  prepare_put repo task_id c dir =
      let k = object_key repo c.object_id in
      (do
        if is_some c.command_result && is_some c.request_sha256
              || not (is_some c.command_result) && not (is_some c.request_sha256)
            then ok tt
            else fault value_error
        repo.validator c.payload
        current ← read_wrapper repo task_id c.object_id dir
        guard (eqb c.expected_revision (revision_of current)) Code.revision_conflict
        ok (make_wrapper k c (base_revision k current dir.events)))

  abbrev write_prepared :
      Key → Commit P R → Directory P R → Outcome (Wrapper P) → Outcome (Wrapper P) × Directory P R
  write_prepared k c dir (ok w) = commit_wrapper k c w dir
  write_prepared k c dir (err e) = (err e, dir)
  write_prepared k c dir (fault e) = (fault e, dir)

  -- `SnapshotRepository.put`
  unfoldable pub put_object :
      Repository P → String → Commit P R → Directory P R → Outcome (Wrapper P) × Directory P R
  put_object repo task_id c dir =
      write_prepared (object_key repo c.object_id) c dir (prepare_put repo task_id c dir)

  -- The event of a removal.
  unfoldable pub removal_event : Key → ℕ → Actor → String → String → ℕ → Event P R
  removal_event k revision actor command idempotency_key now = record {
    event_type = object_removed;
    object_type = k.object_type;
    object_id = k.object_id;
    revision = revision;
    actor = actor;
    command = command;
    idempotency_key = idempotency_key;
    occurred_at = now;
    snapshot = none;
    command_result = none;
    request_sha256 = none;
  }

  abbrev remove_file : Key → Event P R → Directory P R → Directory P R
  remove_file k e dir = record { events = dir.events ++ e ∷ []; files = drop k dir.files }

  abbrev remove_found :
      Key
      → ℕ
      → (ℕ → Event P R)
      → Directory P R
      → Outcome (Option (Wrapper P))
      → Outcome Bool × Directory P R
  remove_found k expected event dir (ok none) = (ok false, dir)
  remove_found k expected event dir (ok (some w)) =
      if eqb expected w.revision
      then (ok true, remove_file k (event w.revision) dir)
      else (err Code.revision_conflict, dir)
  remove_found k expected event dir (err c) = (err c, dir)
  remove_found k expected event dir (fault c) = (fault c, dir)

  -- `SnapshotRepository.delete`: the arguments are the id, the expected revision, the actor, the
  -- command, the idempotency key and the time.
  unfoldable pub delete_object :
      Repository P
      → String
      → String
      → ℕ
      → Actor
      → String
      → String
      → ℕ
      → Directory P R
      → Outcome Bool × Directory P R
  unfolding removal_event
  delete_object repo task_id object_id expected actor command idempotency_key now dir =
      let k = object_key repo object_id in
      remove_found k expected (λ actual. removal_event k actual actor command idempotency_key now)
        dir (read_wrapper repo task_id object_id dir)
