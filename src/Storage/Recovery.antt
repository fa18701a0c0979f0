-- ===== src/Storage/Recovery.antt =====
-- backend/harness/storage/store.py: the repair of the snapshot files of one task directory in
-- `FileStateStore.recover`, which Restart translates as a whole. The events
-- are those that the journal yields; the equality of two payloads is an argument.
pub mod Newest
pub mod Agreement
pub mod Restart
pub mod Refinement
use agentic_design_harness.Common.{
  ltb, eqb, if◌then◌else◌, is_some, runtime_error, key_error, value_error, Outcome, ok, fault,
  ◌>>=◌, ◌>>◌, ℕ, String, Bool, true, false, ◌&&◌, Option, none, some, List, [], ◌∷◌, ◌++◌, ◌==◌,
}
use agentic_design_harness.Storage.{
  Table, Key, find, put, Wrapper, Event, Content, readable, unreadable, Directory, is_committed,
  key_of,
}
use agentic_design_harness.Storage.Repository.{revision}

module _ {P R : Type 0} where
  -- `if key not in latest or event["revision"] > latest[key]["revision"]: latest[key] = event`
  unfoldable pub prefer : Option (Event P R) → Event P R → Event P R
  prefer none e = e
  prefer (some old) e = if ltb old.revision e.revision then e else old

  unfoldable pub note_event : Table (Event P R) → Event P R → Table (Event P R)
  note_event latest e =
      if is_committed e.event_type
      then put (key_of e) (prefer (find (key_of e) latest) e) latest
      else latest

  unfoldable pub collect : Table (Event P R) → List (Event P R) → Table (Event P R)
  collect latest [] = latest
  collect latest (e ∷ es) = collect (note_event latest e) es

  unfoldable pub latest_events : List (Event P R) → Table (Event P R)
  latest_events = collect []

module _ {P : Type 0} (same : P → P → Bool) where
  unfoldable pub same_wrapper : Wrapper P → Wrapper P → Bool
  same_wrapper v w =
      (v.object_type == w.object_type)
      && (v.object_id == w.object_id)
      && eqb v.revision w.revision
      && same v.payload w.payload
      && eqb v.committed_at w.committed_at

  adopt : Option (Wrapper P) → Outcome (Wrapper P × Bool)
  adopt none = fault key_error
  adopt (some w) = ok (w, false)

  settle : Wrapper P → Option (Wrapper P) → Outcome (Wrapper P × Bool)
  settle current none = fault key_error
  settle current (some w) = if same_wrapper current w then ok (current, false) else ok (w, true)

  -- The file of one object after recovery, from what was read and the revision and snapshot of its
  -- newest event. Beside it stands whether a warning is sent.
  unfoldable pub repair : Option (Wrapper P) → ℕ → Option (Wrapper P) → Outcome (Wrapper P × Bool)
  unfolding adopt settle
  repair none newest snapshot = adopt snapshot
  repair (some current) newest snapshot =
      if ltb current.revision newest
      then adopt snapshot
      else if ltb newest current.revision
      then fault runtime_error
      else settle current snapshot

-- `read_json(path) if path.exists() else None`, or `None` where that raises
unfoldable pub try_read : {P : Type 0} → Option (Content P) → Option (Wrapper P)
try_read none = none
try_read (some unreadable) = none
try_read (some (readable w)) = some w

abbrev pub Files : Type 0 → Type 0
Files P = Table (Content P) × List Key

module _ {P R : Type 0} (known : String → Bool) (same : P → P → Bool) where
  -- One round of the loop over the newest events; the second part collects the objects that a
  -- warning names.
  unfoldable pub repair_one : Key → Event P R → Files P → Outcome (Files P)
  unfolding try_read
  repair_one k e (files, warnings) = do
    if known k.object_type then ok tt else fault runtime_error
    (w, warned) ← repair same (try_read (find k files)) e.revision e.snapshot
    ok (put k (readable w) files, if warned then warnings ++ k ∷ [] else warnings)

  unfoldable pub repair_all : List (Key × Event P R) → Files P → Outcome (Files P)
  repair_all [] st = ok st
  repair_all ((k, e) ∷ latest) st = repair_one k e st >>= repair_all latest

-- Every snapshot file must have a commit event.
unfoldable pub check_files :
    {P R : Type 0} → Table (Event P R) → Table (Content P) → Outcome (Unit {0})
check_files latest [] = ok tt
check_files latest ((k, unreadable) ∷ files) = fault value_error
check_files latest ((k, readable w) ∷ files) =
    let rest = check_files latest files in
    if is_some (find (record { object_type = w.object_type; object_id = w.object_id }) latest)
    then rest
    else fault runtime_error

-- The newest events, the loop over them and the check of the files, in `FileStateStore.recover`.
unfoldable pub repair_snapshots :
    {P R : Type 0}
    → (String → Bool)
    → (P → P → Bool)
    → Directory P R
    → Outcome (Directory P R × List Key)
repair_snapshots known same dir =
    let latest = latest_events dir.events in
    (do
      (files, warnings) ← repair_all known same latest (dir.files, [])
      check_files latest files
      ok (record dir { files = files }, warnings))
