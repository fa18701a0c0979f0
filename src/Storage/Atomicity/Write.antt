-- ===== src/Storage/Atomicity/Write.antt =====
-- backend/harness/storage/repository.py: `put` under a crash at any commit point.
use native.Mathlib.Nat.{le_refl}
use agentic_design_harness.Common.{
  Bool-cases, Outcome, ok, err, fault, ◌+◌, ◌≤◌, ◌<◌, String, ◌≡◌, refl, sym, ap, ◌∙◌, subst, ◌⊎◌,
  inl, inr, Bool, true, false, Option, none, some, [], ◌∷◌, ◌++◌, arith,
}
use agentic_design_harness.Storage.{
  Table, Key, same_key_iff, NodupKeys, same_key, find, Wrapper, Event, Content, readable,
  unreadable, Directory, key_of, commits,
}
use agentic_design_harness.Storage.Repository.{
  Repository, Commit, object_key, read_content, revision_of, read_wrapper, base_revision,
  make_wrapper, make_event, prepare_put,
}
use agentic_design_harness.Storage.Recovery.{prefer}
use agentic_design_harness.Storage.Recovery.Newest.{newest, newest-source}
use agentic_design_harness.Storage.Recovery.Agreement.{
  HasSnapshot, Behind, IsRecoverable, journal_content,
}
use agentic_design_harness.Storage.Recovery.Refinement.{commits-committed}
use agentic_design_harness.Storage.Atomicity.{newest-append, newest-le, IsCurrent, mem-append_one}

-- What a successful check says of the wrapper that is about to be written.
pub record Prepared {P R : Type 0} (repo : Repository P) (c : Commit P R) (dir : Directory P R)
    (w : Wrapper P) : Type 0 where
  pub found : Option (Wrapper P)
  pub content :
      read_content repo.object_type (find (object_key repo c.object_id) dir.files) ≡ ok found
  pub expected : c.expected_revision ≡ revision_of found
  built :
      w
      ≡ make_wrapper
          (object_key repo c.object_id)
          c
          (base_revision (object_key repo c.object_id) found dir.events)

module _ {P R : Type 0} (repo : Repository P) (task_id : String) (c : Commit P R)
    (dir : Directory P R) where
  pub prepared :
      (o : Outcome (Option (Wrapper P))) (w : Wrapper P)
      → read_content repo.object_type (find (object_key repo c.object_id) dir.files) ≡ o
      → prepare_put repo task_id c dir ≡ ok w
      → Prepared repo c dir w
  unfolding prepare_put read_wrapper
  prepared (ok found) w r h = record {
    found = found;
    content = r;
    expected = ground (arith, r);
    built = ground (arith, r);
  }
  prepared (err x) w r h = absurd (ground (arith, r))
  prepared (fault x) w r h = absurd (ground (arith, r))

  module _ (known : String → Bool) (w : Wrapper P) where
    abbrev pub target_key : Key
    target_key = object_key repo c.object_id

    abbrev pub new_event : Event P R
    new_event = make_event c w

    -- The new revision is above that of every event of the object.
    above :
        (found : Option (Content P)) (read : Option (Wrapper P)) (old : Event P R)
        → IsCurrent known dir
        → find target_key dir.files ≡ found
        → read_content repo.object_type found ≡ ok read
        → newest target_key dir.events ≡ some old
        → old.revision ≤ base_revision target_key read dir.events
    unfolding read_content base_revision journal_content
    above none (some r) old v f h n = cc
    above none none old v f h n = newest-le target_key dir.events old n
    above (some unreadable) read old v f h n = cc
    above (some (readable x)) none old v f h n = absurd (ground arith)
    above (some (readable x)) (some y) old v f h n =
        let (m, co) = newest-source target_key dir.events old n in
        let s = v.recoverable.logged old m (commits-committed target_key old co) in
        let same : s.wrapper ≡ x = ground (arith, v.current target_key (readable x) f, s.carried) in
        let same' : x ≡ y = ground arith in ground (arith, s.of_revision)

    prefer_new :
        (o : Option (Event P R))
        → ((old : Event P R) → o ≡ some old → old.revision < new_event.revision)
        → prefer o new_event ≡ new_event
    unfolding prefer
    prefer_new none h = refl
    prefer_new (some old) h = ground (arith, h old refl)

    pub own_fields :
        Prepared repo c dir w → (w.object_type ≡ repo.object_type) × (w.object_id ≡ c.object_id)
    unfolding make_wrapper
    own_fields p =
        (ap (λ (x : Wrapper P). x.object_type) p.built, ap (λ (x : Wrapper P). x.object_id) p.built)

    own_revision :
        (p : Prepared repo c dir w) → w.revision ≡ base_revision target_key p.found dir.events + 1
    unfolding make_wrapper
    own_revision p = ap (λ (x : Wrapper P). x.revision) p.built

    pub own_key : Prepared repo c dir w → target_key ≡ key_of new_event
    unfolding make_event
    own_key p = let (t, i) = own_fields p in rw (t, i) refl

    commits_own : Prepared repo c dir w → commits target_key new_event ≡ true
    unfolding make_event
    commits_own p = (same_key_iff target_key (key_of new_event)).1 (own_key p)

    commits_other :
        Prepared repo c dir w
        → (j : Key) → same_key j target_key ≡ false
        → commits j new_event ≡ false
    unfolding make_event
    commits_other p j d = subst (λ x. same_key j x ≡ false) (own_key p) d

    -- With the event appended, the newest event of the object is the one of this write.
    pub newest_own :
        IsCurrent known dir
        → Prepared repo c dir w
        → newest target_key (dir.events ++ new_event ∷ []) ≡ some new_event
    unfolding make_event
    newest_own v p =
        let last = prefer_new (newest target_key dir.events) (λ old n. omega (
          arith,
          above (find target_key dir.files) p.found old v refl p.content n,
          own_revision p,
        )) in
        newest-append target_key dir.events new_event ∙ ground (arith, commits_own p, last)

    pub newest_other :
        Prepared repo c dir w
        → (j : Key) → same_key j target_key ≡ false
        → newest j (dir.events ++ new_event ∷ []) ≡ newest j dir.events
    newest_other p j d = newest-append j dir.events new_event ∙ rw (commits_other p j d) refl

    has_snapshot :
        known repo.object_type ≡ true → Prepared repo c dir w → HasSnapshot known new_event
    unfolding make_event
    has_snapshot n p = record {
      wrapper = w;
      carried = refl;
      of_type = refl;
      of_id = refl;
      of_revision = refl;
      is_known = rw ((own_fields p).0) n;
    }

    Behind-new :
        (x : Content P) (old : Event P R)
        → Behind (some x) old
        → old.revision ≤ new_event.revision
        → Behind (some x) new_event
    Behind-new unreadable old b h = tt
    Behind-new (readable y) old b h = omega arith

    Behind-own :
        IsCurrent known dir
        → Prepared repo c dir w
        → (x : Content P) → (find target_key dir.files ≡ some x) ⊎ (x ≡ readable w)
        → Behind (some x) new_event
    Behind-own v p x (inl f) =
        let (old, n, b) = v.recoverable.behind target_key x f in
        let a = above (find target_key dir.files) p.found old v refl p.content n in
        let r : w.revision ≤ new_event.revision = unfold make_event in le_refl w.revision in
        Behind-new x old b (omega (arith, own_revision p))
    Behind-own v p x (inr q) = rw q (unfold make_event in le_refl w.revision)

    -- Old files, and perhaps the new one, under the longer journal.
    pub still-IsRecoverable :
        IsCurrent known dir
        → known repo.object_type ≡ true
        → Prepared repo c dir w
        → (files : Table (Content P)) → NodupKeys files
        → ((j : Key) (x : Content P)
            → find j files ≡ some x
            → (find j dir.files ≡ some x) ⊎ ((j ≡ target_key) × (x ≡ readable w)))
        → IsRecoverable known (record { events = dir.events ++ new_event ∷ []; files = files })
    still-IsRecoverable v n p files u h = record {
      logged = λ x m i. elim (mem-append_one x new_event dir.events m) [
        | inl old ↦ v.recoverable.logged x old i
        | inr new ↦ subst (λ y. HasSnapshot known y) (sym new) (has_snapshot n p)
      ];
      files_distinct = u;
      behind = λ j x f. found (h j x f) (Bool-cases (same_key j target_key));
    }
      where
        found :
            {j : Key} {x : Content P}
            → (find j dir.files ≡ some x) ⊎ ((j ≡ target_key) × (x ≡ readable w))
            → (same_key j target_key ≡ true) ⊎ (same_key j target_key ≡ false)
            → (d : Event P R) × (newest j (dir.events ++ new_event ∷ []) ≡ some d)
              × Behind (some x) d
        found {j} {x} o (inl s) =
            let own : j ≡ target_key = (same_key_iff j target_key).0 s in
            (
              new_event,
              subst (λ i. newest i (dir.events ++ new_event ∷ []) ≡ some new_event) (sym own)
                  (newest_own v p),
              Behind-own v p x (elim o [
                | inl f ↦ inl (subst (λ i. find i dir.files ≡ some x) own f)
                | inr (_, q) ↦ inr q
              ]),
            )
        found {j} {x} (inl f) (inr d) =
            let (old, n, b) = v.recoverable.behind j x f in (old, newest_other p j d ∙ n, b)
        found {j} {x} (inr (own, q)) (inr d) = absurd (ground (arith, same_key_iff j target_key))
