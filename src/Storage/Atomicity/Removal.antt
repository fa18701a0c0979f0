-- ===== src/Storage/Atomicity/Removal.antt =====
-- backend/harness/storage/repository.py and store.py: what `delete` leaves.
use agentic_design_harness.Common.{
  eqb, Bool-cases, Outcome, ok, err, fault, ℕ, String, ◌≡◌, refl, ◌∙◌, ◌⊎◌, inl, inr, Bool, true,
  false, Option, none, some, [], ◌∷◌, ◌++◌, arith,
}
use agentic_design_harness.Storage.{
  Key, same_key_iff, find-drop, NodupKeys, drop-NodupKeys, find, drop, Actor, Wrapper, Event,
  Directory, is_committed,
}
use agentic_design_harness.Storage.Repository.{
  Repository, object_key, read_wrapper, removal_event, delete_object,
}
use agentic_design_harness.Storage.Recovery.Newest.{newest}
use agentic_design_harness.Storage.Recovery.Agreement.{journal_content}
use agentic_design_harness.Storage.Atomicity.{newest-append, IsCurrent, mem-append_one}

module _ {P R : Type 0} (dir : Directory P R) (x : Event P R)
    (removal : is_committed x.event_type ≡ false) where
  newest-removal : (j : Key) → newest j (dir.events ++ x ∷ []) ≡ newest j dir.events
  newest-removal j = newest-append j dir.events x ∙ ground (arith, removal)

  -- Without a file of one object, under a journal that a removal ends.
  dropped-IsCurrent :
      (known : String → Bool) (k : Key)
      → NodupKeys (drop k dir.files)
      → IsCurrent known dir
      → IsCurrent known (record { events = dir.events ++ x ∷ []; files = drop k dir.files })
  unfolding journal_content
  dropped-IsCurrent known k u v = record {
    recoverable = record {
      logged = λ e m i. elim (mem-append_one e x dir.events m) [
        | inl old ↦ v.recoverable.logged e old i
        | inr new ↦ absurd (ground arith)
      ];
      files_distinct = u;
      behind = λ j c f.
          let (e, n, b) = v.recoverable.behind j c (ground (arith, find-drop j k dir.files)) in
          (e, newest-removal j ∙ n, b);
    };
    current =
        λ j c f. rw (newest-removal j) (v.current j c (ground (arith, find-drop j k dir.files)));
  }

module _ {P R : Type 0} (repo : Repository P) (task_id object_id : String) (expected : ℕ)
    (actor : Actor) (command key : String) (now : ℕ) (dir : Directory P R) where
  abbrev pub deletion : Outcome Bool × Directory P R
  deletion = delete_object repo task_id object_id expected actor command key now dir

  abbrev target : Key
  target = object_key repo object_id

  removal_of : ℕ → Event P R
  removal_of actual = removal_event target actual actor command key now

  -- A removal changes nothing, or appends its event and drops the file.
  deletion_cases :
      (deletion.1 ≡ dir)
      ⊎ ((actual : ℕ) × (deletion.1 ≡ record {
        events = dir.events ++ removal_of actual ∷ [];
        files = drop target dir.files;
      }))
  unfolding removal_of delete_object
  deletion_cases = by_read (read_wrapper repo task_id object_id dir) refl
    where
      by_read :
          (o : Outcome (Option (Wrapper P)))
          → read_wrapper repo task_id object_id dir ≡ o
          → (deletion.1 ≡ dir)
            ⊎ ((actual : ℕ) × (deletion.1 ≡ record {
              events = dir.events ++ removal_of actual ∷ [];
              files = drop target dir.files;
            }))
      by_read (ok none) e = inl (rw (e, delete_object) refl)
      by_read (ok (some w)) e = elim (Bool-cases (eqb expected w.revision)) [
        | inl t ↦ inr (w.revision, rw (e, delete_object) (rw t refl))
        | inr t ↦ inl (rw (e, delete_object) (rw t refl))
      ]
      by_read (err x) e = inl (rw (e, delete_object) refl)
      by_read (fault x) e = inl (rw (e, delete_object) refl)

  -- A removal, done or not, leaves a current directory.
  pub delete_object-IsCurrent :
      (known : String → Bool) → IsCurrent known dir → IsCurrent known deletion.1
  unfolding removal_of removal_event
  delete_object-IsCurrent known v = elim deletion_cases [
    | inl q ↦ rw q v
    | inr (actual, q) ↦ rw q (
        dropped-IsCurrent dir (removal_of actual) refl known target
          (drop-NodupKeys target dir.files v.recoverable.files_distinct) v)
  ]

  pub deletion_events : (j : Key) → newest j deletion.1.events ≡ newest j dir.events
  unfolding removal_of removal_event
  deletion_events j = elim deletion_cases [
    | inl q ↦ rw q refl
    | inr (actual, q) ↦ rw q (newest-removal dir (removal_of actual) refl j)
  ]

  -- A removal that is done leaves no file of its object.
  pub deletion_gone : deletion.0 ≡ ok true → find target deletion.1.files ≡ none
  unfolding delete_object
  deletion_gone = by_read (read_wrapper repo task_id object_id dir) refl
    where
      by_read :
          (o : Outcome (Option (Wrapper P)))
          → read_wrapper repo task_id object_id dir ≡ o
          → deletion.0 ≡ ok true
          → find target deletion.1.files ≡ none
      by_read (ok none) e h = absurd (ground (arith, e))
      by_read (ok (some w)) e h = elim (Bool-cases (eqb expected w.revision)) [
        | inl t ↦
            rw (e, delete_object)
              (rw t (ground (arith, find-drop target target dir.files, same_key_iff target target)))
        | inr t ↦ absurd (ground (arith, e, t))
      ]
      by_read (err x) e h = absurd (ground (arith, e))
      by_read (fault x) e h = absurd (ground (arith, e))
