-- ===== src/Storage/Restart/Writes.antt =====
-- backend/harness/storage/repository.py and store.py: a start after a write that a crash may have cut
-- off, and after a removal.
use agentic_design_harness.Common.{ok, ℕ, String, ◌≡◌, ◌∙◌, Bool, true, false, none, some}
use agentic_design_harness.Storage.{
  Key, same_key, find, Actor, Wrapper, Content, readable, Directory,
}
use agentic_design_harness.Storage.Repository.{
  Repository, Commit, object_key, prepare_put, put_object, delete_object,
}
use agentic_design_harness.Storage.Recovery.Agreement.{journal_content}
use agentic_design_harness.Storage.Atomicity.{IsCurrent}
use agentic_design_harness.Storage.Atomicity.Crash.{outcome, put_object-journal_content}
use agentic_design_harness.Storage.Atomicity.Removal.{
  delete_object-IsCurrent, deletion_events, deletion_gone,
}
use agentic_design_harness.Storage.Idempotency.{Registry}
use agentic_design_harness.Storage.Restart.{Projectors, recover_idempotency_results, recover}
use agentic_design_harness.Storage.Restart.Frame.{is_projection, KnowsParts}
use agentic_design_harness.Storage.Restart.Durability.{recover-IsRestored}

module _ {P R : Type 0} (known : String → Bool) (same : P → P → Bool)
    (sound : (a b : P) → same a b ≡ true → a ≡ b) (ps : Projectors P)
    (recovery_key : ℕ → String → String → String) (path : String → String → String)
    (parts : KnowsParts known ps) (repo : Repository P) (task_id : String) (now : ℕ)
    (registry : Registry R) (dir : Directory P R) where
  -- The directory that a start makes of another one.
  abbrev pub started : Directory P R → Directory P R
  started d = (recover ps same recovery_key task_id now path known d registry).1.0

  -- The results of the committed commands of a directory are recorded without a conflict.
  abbrev pub Remembers : Directory P R → Type 0
  Remembers d = (recover_idempotency_results path task_id d.events registry).0 ≡ ok tt

  -- Where the store knows the types of a plan's parts, and payloads that are called the same are equal:
  -- if `put` passes its checks in a current directory, for an object other than a task, a stage or an
  -- instance, then whatever commit point a crash comes at, the start that follows and that records the
  -- results of committed commands without a conflict leaves the new wrapper in the object's file, and
  -- of every other object outside tasks, stages and instances the file that the journal called for
  -- before the write.
  pub put_object-recover :
      (c : Commit P R) (w : Wrapper P)
      → IsCurrent known dir
      → known repo.object_type ≡ true
      → is_projection ps repo.object_type ≡ false
      → prepare_put repo task_id c dir ≡ ok w
      → Remembers (put_object repo task_id c dir).1
      → (find (object_key repo c.object_id) (started (put_object repo task_id c dir).1).files
          ≡ some (readable w))
        × ((j : Key)
            → same_key j (object_key repo c.object_id) ≡ false
            → is_projection ps j.object_type ≡ false
            → find j (started (put_object repo task_id c dir).1).files
              ≡ journal_content j dir.events)
  put_object-recover c w v n other h m =
      let (r, _) = outcome repo task_id c dir known w v n h in
      let restored =
        (recover-IsRestored known same sound ps recovery_key task_id now path parts
          (put_object repo task_id c dir).1 registry r m).restored in
      let (own, rest) = put_object-journal_content repo task_id c dir known w v n h in
      (restored (object_key repo c.object_id) other ∙ own, λ j d p. restored j p ∙ rest j d)

  -- Where the store knows the types of a plan's parts, and payloads that are called the same are equal:
  -- a removal in a current directory, of an object other than a task, a stage or an instance, that
  -- reports success has removed the object's file; the start that follows and that records the results
  -- of committed commands without a conflict brings the file back with the content that it had, since
  -- `recover` does not look at the event of the removal.
  pub delete_object-recover :
      (object_id : String) (expected : ℕ) (actor : Actor) (command key : String) (at : ℕ)
      (content : Content P)
      → IsCurrent known dir
      → is_projection ps repo.object_type ≡ false
      → find (object_key repo object_id) dir.files ≡ some content
      → (delete_object repo task_id object_id expected actor command key at dir).0 ≡ ok true
      → Remembers (delete_object repo task_id object_id expected actor command key at dir).1
      → (find
            (object_key repo object_id)
            (delete_object repo task_id object_id expected actor command key at dir).1.files
          ≡ none)
        × (find
              (object_key repo object_id)
              (started
                (delete_object repo task_id object_id expected actor command key at dir).1).files
            ≡ some content)
  unfolding journal_content
  delete_object-recover object_id expected actor command key at content v other f h m =
      let k : Key = object_key repo object_id in
      let left = delete_object repo task_id object_id expected actor command key at dir in
      let r =
        (delete_object-IsCurrent repo task_id object_id expected actor command key at dir known
          v).recoverable in
      let restored =
        (recover-IsRestored known same sound ps recovery_key task_id now path parts left.1 registry
          r m).restored in
      (
        deletion_gone repo task_id object_id expected actor command key at dir h,
        restored k other
            ∙ rw (deletion_events repo task_id object_id expected actor command key at dir k)
                (v.current k content f),
      )
