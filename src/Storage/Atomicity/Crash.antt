-- ===== src/Storage/Atomicity/Crash.antt =====
-- backend/harness/storage/repository.py: a write that passes its checks survives a crash at any of
-- its commit points; one that does not writes nothing.
use agentic_design_harness.Common.{
  Bool-cases, Outcome, ok, err, fault, String, ◌≡◌, refl, sym, subst, ◌≢◌, ◌⊎◌, inl, inr, Bool,
  true, false, Option, none, some, [], ◌∷◌, ◌++◌, arith,
}
use agentic_design_harness.Storage.{
  Key, same_key_iff, find-put, put-NodupKeys, same_key, find, put, Wrapper, readable, Directory,
}
use agentic_design_harness.Storage.Repository.{
  Repository, Checkpoint, after_event_append, after_snapshot_rename, after_index_update, Commit,
  object_key, read_content, make_event, append_event, write_file, interrupt, commit_wrapper,
  prepare_put, put_object,
}
use agentic_design_harness.Storage.Recovery.Newest.{newest}
use agentic_design_harness.Storage.Recovery.Agreement.{IsRecoverable, journal_content}
use agentic_design_harness.Storage.Atomicity.{IsCurrent}
use agentic_design_harness.Storage.Atomicity.Write.{
  Prepared, prepared, newest_own, newest_other, still-IsRecoverable,
}

module _ {P R : Type 0} (repo : Repository P) (task_id : String) (c : Commit P R)
    (dir : Directory P R) where
  abbrev pub appended : Wrapper P → Directory P R
  appended w = append_event (make_event c w) dir

  abbrev pub written : Wrapper P → Directory P R
  written w = write_file (object_key repo c.object_id) w (appended w)

  interrupt-directory :
      (x : Option Checkpoint) (w : Wrapper P) (a b : Directory P R)
      → ((interrupt x w a b).1 ≡ a) ⊎ ((interrupt x w a b).1 ≡ b)
  unfolding interrupt
  interrupt-directory none w a b = inr refl
  interrupt-directory (some after_event_append) w a b = inl refl
  interrupt-directory (some after_snapshot_rename) w a b = inr refl
  interrupt-directory (some after_index_update) w a b = inr refl

  interrupt-done :
      (x : Option Checkpoint) (w : Wrapper P) (a b : Directory P R)
      → x ≡ none
      → (interrupt x w a b).1 ≡ b
  unfolding interrupt
  interrupt-done none w a b q = refl
  interrupt-done (some x) w a b q = cc

  -- Where the checks pass, the directory after `put` is one of two.
  pub put_object-directory :
      (w : Wrapper P)
      → prepare_put repo task_id c dir ≡ ok w
      → ((put_object repo task_id c dir).1 ≡ appended w)
        ⊎ ((put_object repo task_id c dir).1 ≡ written w)
  unfolding put_object commit_wrapper
  put_object-directory w h =
      rw (h, put_object) (interrupt-directory c.crash w (appended w) (written w))

  -- After `put` passes its checks, whatever commit point a crash comes at, the journal is as
  -- if it had ended.
  pub outcome :
      (known : String → Bool) (w : Wrapper P)
      → IsCurrent known dir
      → known repo.object_type ≡ true
      → prepare_put repo task_id c dir ≡ ok w
      → (IsRecoverable known (put_object repo task_id c dir).1)
        × ((put_object repo task_id c dir).1.events ≡ dir.events ++ make_event c w ∷ [])
  outcome known w v n h =
      let p =
        prepared repo task_id c dir
          (read_content repo.object_type (find (object_key repo c.object_id) dir.files)) w refl h in
      let first =
        still-IsRecoverable repo task_id c dir known w v n p dir.files v.recoverable.files_distinct
          (λ j x f. inl f) in
      let second =
        still-IsRecoverable repo task_id c dir known w v n p
          (put (object_key repo c.object_id) (readable w) dir.files)
          (put-NodupKeys (object_key repo c.object_id) (readable w) dir.files
            v.recoverable.files_distinct)
          (λ j x f. ground (
            arith,
            find-put j (object_key repo c.object_id) (readable w) dir.files,
            same_key_iff j (object_key repo c.object_id),
          )) in
      elim (put_object-directory w h) [ inl q ↦ rw q (first, refl) | inr q ↦ rw q (second, refl) ]

  -- What the journal calls for after such a write.
  pub put_object-journal_content :
      (known : String → Bool) (w : Wrapper P)
      → IsCurrent known dir
      → known repo.object_type ≡ true
      → prepare_put repo task_id c dir ≡ ok w
      → (journal_content (object_key repo c.object_id) (put_object repo task_id c dir).1.events
          ≡ some (readable w))
        × ((j : Key)
            → same_key j (object_key repo c.object_id) ≡ false
            → journal_content j (put_object repo task_id c dir).1.events
              ≡ journal_content j dir.events)
  unfolding journal_content make_event
  put_object-journal_content known w v n h =
      let p =
        prepared repo task_id c dir
          (read_content repo.object_type (find (object_key repo c.object_id) dir.files)) w refl h in
      let (_, q) = outcome known w v n h in
      (
        rw (q, newest_own repo task_id c dir known w v p) refl,
        λ j d. rw (q, newest_other repo task_id c dir known w p j d) refl,
      )

  written-IsCurrent :
      (known : String → Bool) (w : Wrapper P)
      → IsCurrent known dir
      → known repo.object_type ≡ true
      → Prepared repo c dir w
      → IsCurrent known (written w)
  unfolding journal_content
  written-IsCurrent known w v n p =
      let k = object_key repo c.object_id in
      record {
        recoverable =
            still-IsRecoverable repo task_id c dir known w v n p (put k (readable w) dir.files)
              (put-NodupKeys k (readable w) dir.files v.recoverable.files_distinct)
              (λ j x f. ground (arith, find-put j k (readable w) dir.files, same_key_iff j k));
        current = λ j x f. elim (Bool-cases (same_key j k)) [
          | inl s ↦
              let own : j ≡ k = (same_key_iff j k).0 s in
              let q : newest j (dir.events ++ make_event c w ∷ []) ≡ some (make_event c w) =
                subst (λ i. newest i (dir.events ++ make_event c w ∷ []) ≡ some (make_event c w))
                  (sym own) (newest_own repo task_id c dir known w v p) in
              rw q (unfold make_event in ground (arith, find-put j k (readable w) dir.files))
          | inr d ↦
              rw (newest_other repo task_id c dir known w p j d)
                (v.current j x (ground (arith, find-put j k (readable w) dir.files)))
        ];
      }

  -- Where a check fails, nothing is written.
  pub put_object-refused :
      ((w : Wrapper P) → prepare_put repo task_id c dir ≢ ok w)
      → (put_object repo task_id c dir).1 ≡ dir
  unfolding put_object
  put_object-refused h = refused (prepare_put repo task_id c dir) refl
    where
      refused :
          (o : Outcome (Wrapper P))
          → prepare_put repo task_id c dir ≡ o
          → (put_object repo task_id c dir).1 ≡ dir
      refused (ok w) e = absurd (h w e)
      refused (err x) e = rw e refl
      refused (fault x) e = rw e refl

  -- A write that no crash interrupts, accepted or refused, leaves a current directory.
  pub put_object-IsCurrent :
      (known : String → Bool)
      → IsCurrent known dir
      → known repo.object_type ≡ true
      → c.crash ≡ none
      → IsCurrent known (put_object repo task_id c dir).1
  put_object-IsCurrent known v n q = by_check (prepare_put repo task_id c dir) refl
    where
      by_check :
          (o : Outcome (Wrapper P))
          → prepare_put repo task_id c dir ≡ o
          → IsCurrent known (put_object repo task_id c dir).1
      by_check (ok w) h =
          let p =
            prepared repo task_id c dir
              (read_content repo.object_type (find (object_key repo c.object_id) dir.files)) w refl
              h in
          unfold put_object commit_wrapper in
          rw (h, put_object)
            (rw (interrupt-done c.crash w (appended w) (written w) q)
              (written-IsCurrent known w v n p))
      by_check (err x) h = rw (put_object-refused (λ w e. cc)) v
      by_check (fault x) h = rw (put_object-refused (λ w e. cc)) v
