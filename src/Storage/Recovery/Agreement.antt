-- ===== src/Storage/Recovery/Agreement.antt =====
-- backend/harness/storage/store.py: after the repair the snapshot files are those of the journal.
use agentic_design_harness.Common.{
  ltb, if◌then◌else◌, ok, ◌≤◌, String, ◌≡◌, refl, Bool, true, false, not, Option, none, some, List,
  Memᴰ, arith, eq_iff,
}
use agentic_design_harness.Storage.{
  Key, NodupKeys, find, Wrapper, Event, Content, readable, unreadable, Directory, is_committed,
}
use agentic_design_harness.Storage.Recovery.{same_wrapper, repair, try_read}
use agentic_design_harness.Storage.Recovery.Newest.{newest}

-- A committed event carries the wrapper that was written, of a type that the store knows.
pub record HasSnapshot {P R : Type 0} (known : String → Bool) (e : Event P R) : Type 0 where
  pub wrapper : Wrapper P
  pub carried : e.snapshot ≡ some wrapper
  pub of_type : wrapper.object_type ≡ e.object_type
  pub of_id : wrapper.object_id ≡ e.object_id
  pub of_revision : wrapper.revision ≡ e.revision
  pub is_known : known e.object_type ≡ true

-- A file is not ahead of its object's newest event; what it holds may be stale or unreadable.
abbrev pub Behind : {P R : Type 0} → Option (Content P) → Event P R → Type 0
Behind none e = Unit
Behind (some unreadable) e = Unit
Behind (some (readable w)) e = w.revision ≤ e.revision

-- The directory of a store that stopped at any time: the journal is sound, each file has an event,
-- and none is ahead of the journal.
pub record IsRecoverable {P R : Type 0} (known : String → Bool) (dir : Directory P R) : Type 0 where
  pub logged :
      (e : Event P R) → Memᴰ e dir.events → is_committed e.event_type ≡ true → HasSnapshot known e
  pub files_distinct : NodupKeys dir.files
  pub behind :
      (k : Key) (c : Content P)
      → find k dir.files ≡ some c
      → (e : Event P R) × (newest k dir.events ≡ some e) × Behind (some c) e

-- The file that the journal calls for.
abbrev pub content_of : {P : Type 0} → Option (Wrapper P) → Option (Content P)
content_of none = none
content_of (some w) = some (readable w)

abbrev pub content_of_event : {P R : Type 0} → Option (Event P R) → Option (Content P)
content_of_event none = none
content_of_event (some e) = content_of e.snapshot

unfoldable pub journal_content : {P R : Type 0} → Key → List (Event P R) → Option (Content P)
journal_content k events = content_of_event (newest k events)

module _ {P : Type 0} (same : P → P → Bool) (sound : (a b : P) → same a b ≡ true → a ≡ b) where
  same_wrapper-eq : (v w : Wrapper P) → same_wrapper same v w ≡ true → v ≡ w
  unfolding same_wrapper
  same_wrapper-eq v w h = ground (
    arith,
    eq_iff v.object_type w.object_type,
    eq_iff v.object_id w.object_id,
    sound v.payload w.payload,
  )

  pub repair_lem :
      {R : Type 0} (found : Option (Content P)) (e : Event P R) (w : Wrapper P)
      → Behind found e
      → (warned : Bool) × (repair same (try_read found) e.revision (some w) ≡ ok (w, warned))
  unfolding repair try_read
  repair_lem none e w b = (false, refl)
  repair_lem (some unreadable) e w b = (false, refl)
  repair_lem (some (readable v)) e w b = (
    if ltb v.revision e.revision then false else not (same_wrapper same v w),
    ground (arith, same_wrapper-eq v w),
  )
