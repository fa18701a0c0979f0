-- ===== src/Storage/Recovery/Refinement.antt =====
-- backend/harness/storage/store.py: the repair of the snapshot files refines "the state is a function of the journal".
use agentic_design_harness.Common.{
  is_some, all, ok, String, ◌≡◌, refl, sym, ◌∙◌, subst, Bool, true, Option, none, some, List, [],
  arith,
}
use agentic_design_harness.Storage.{
  Key, same_key_iff, NodupKeys, find, Wrapper, Event, Content, readable, Directory, is_committed,
  key_of, commits,
}
use agentic_design_harness.Storage.Recovery.{latest_events, repair_snapshots}
use agentic_design_harness.Storage.Recovery.Newest.{
  newest, find-latest_events, latest_events-NodupKeys, newest-source,
}
use agentic_design_harness.Storage.Recovery.Agreement.{
  HasSnapshot, Behind, IsRecoverable, content_of_event, journal_content,
}
use agentic_design_harness.Storage.Recovery.Restart.{
  Ready, repaired, repair_all_lem, check_files_lem,
}

-- Two keys of one object.
pub key-eq : {P R : Type 0} (k : Key) (e : Event P R) → commits k e ≡ true → k ≡ key_of e
key-eq k e h = (same_key_iff k (key_of e)).0 (ground arith)

pub commits-committed :
    {P R : Type 0} (k : Key) (e : Event P R) → commits k e ≡ true → is_committed e.event_type ≡ true
commits-committed k e h = ground arith

module _ {P R : Type 0} (known : String → Bool) (dir : Directory P R)
    (v : IsRecoverable known dir) where
  newest_snapshot :
      (k : Key) (e : Event P R)
      → newest k dir.events ≡ some e
      → HasSnapshot known e × (k ≡ key_of e)
  newest_snapshot k e h =
      let (m, c) = newest-source k dir.events e h in
      (v.logged e m (commits-committed k e c), key-eq k e c)

  Behind-newest :
      (k : Key) (e : Event P R) (found : Option (Content P))
      → find k dir.files ≡ found
      → newest k dir.events ≡ some e
      → Behind found e
  Behind-newest k e none f h = tt
  Behind-newest k e (some c) f h =
      let (d, n, b) = v.behind k c f in
      let same : d ≡ e = ground arith in subst (λ x. Behind (some c) x) same b

  ready :
      (k : Key) (e : Event P R)
      → find k (latest_events dir.events) ≡ some e
      → Ready known (find k dir.files) k e
  ready k e h =
      let n : newest k dir.events ≡ some e = sym (find-latest_events k dir.events) ∙ h in
      let (s, same) = newest_snapshot k e n in
      record {
        behind = Behind-newest k e (find k dir.files) refl n;
        wrapper = s.wrapper;
        carried = s.carried;
        is_known = subst (λ (x : Key). known x.object_type ≡ true) (sym same) s.is_known;
      }

  no_file :
      (j : Key) (found : Option (Content P))
      → find j dir.files ≡ found
      → newest j dir.events ≡ none
      → found ≡ none
  no_file j none f n = refl
  no_file j (some c) f n = let (d, m, b) = v.behind j c f in ground arith

  -- Where there is no event there is no file.
  repaired-journal :
      (j : Key)
      → repaired (find j (latest_events dir.events)) (find j dir.files)
        ≡ journal_content j dir.events
  unfolding journal_content
  repaired-journal j = rw (find-latest_events j dir.events) (by_newest (newest j dir.events) refl)
    where
      by_newest :
          (o : Option (Event P R))
          → newest j dir.events ≡ o
          → repaired o (find j dir.files) ≡ content_of_event o
      by_newest none n = no_file j (find j dir.files) refl n
      by_newest (some e) n = refl

  checked_event :
      (k : Key) (c : Content P) (o : Option (Event P R))
      → newest k dir.events ≡ o
      → content_of_event o ≡ some c
      → (w : Wrapper P) × (c ≡ readable w)
        × (is_some (
              find
                (record { object_type = w.object_type; object_id = w.object_id })
                (latest_events dir.events))
            ≡ true)
  checked_event k c none n h = cc
  checked_event k c (some e) n h =
      let (s, same) = newest_snapshot k e n in
      let own : record { object_type = s.wrapper.object_type; object_id = s.wrapper.object_id }
          ≡ k =
        rw (s.of_type, s.of_id) (sym same) in
      (
        s.wrapper,
        ground (arith, s.carried),
        subst (λ (x : Key). is_some (find x (latest_events dir.events)) ≡ true) (sym own)
            (rw (find-latest_events k dir.events, n) refl),
      )

  -- From any directory that a store may have left behind, the repair of the snapshot files ends
  -- without an error, keeps the journal, and leaves exactly the files that the newest committed
  -- events call for.
  pub repair_snapshots-journal_content :
      (same : P → P → Bool)
      → ((a b : P) → same a b ≡ true → a ≡ b)
      → (dir' : Directory P R) × (warnings : List Key) × (repair_snapshots known same dir
          ≡ ok (dir', warnings))
        × (dir'.events ≡ dir.events)
        × NodupKeys dir'.files
        × ((k : Key) → find k dir'.files ≡ journal_content k dir.events)
  unfolding repair_snapshots
  repair_snapshots-journal_content same sound =
      let (files, ws, h, n, all) =
        repair_all_lem same sound known (latest_events dir.events) dir.files []
          (latest_events-NodupKeys dir.events) v.files_distinct ready in
      let agree : (k : Key) → find k files ≡ journal_content k dir.events =
        λ k. all k ∙ repaired-journal k in
      let c = check_files_lem (latest_events dir.events) files n (λ k c p.
        unfold journal_content in
        checked_event k c (newest k dir.events) refl (sym (agree k) ∙ p)) in
      (record { events = dir.events; files = files }, ws, ground (arith, h, c), refl, n, agree)
