-- ===== src/Storage/Restart/Durability.antt =====
-- backend/harness/storage/store.py and repository.py: what a start makes of a directory that a store has
-- left behind, be it after a write that a crash has cut off or after a removal.
use agentic_design_harness.Common.{
  all, Outcome, ok, err, fault, ◌>>=◌, ℕ, String, ◌≡◌, refl, sym, ap, ◌∙◌, subst, Bool, true, false,
  Option, none, some, List, ◌++◌, Memᴰ, arith,
}
use agentic_design_harness.Storage.{Key, NodupKeys, find, Event, Content, readable, Directory}
use agentic_design_harness.Storage.Recovery.{repair_snapshots}
use agentic_design_harness.Storage.Recovery.Newest.{newest, newest-source}
use agentic_design_harness.Storage.Recovery.Agreement.{
  Behind, IsRecoverable, content_of_event, journal_content,
}
use agentic_design_harness.Storage.Recovery.Refinement.{
  commits-committed, repair_snapshots-journal_content,
}
use agentic_design_harness.Storage.Atomicity.{IsCurrent}
use agentic_design_harness.Storage.Idempotency.{Registry}
use agentic_design_harness.Storage.Restart.{
  Projectors, recover_idempotency_results, State, Started, reconciled_start,
  reconcile_plan_projections, repaired_start, remembered_start, recover,
}
use agentic_design_harness.Storage.Restart.Frame.{
  is_projection, KnowsParts, IsLater, reconcile_plan_projections-Keeps,
}

module _ {P R : Type 0} (known : String → Bool) (same : P → P → Bool)
    (sound : (a b : P) → same a b ≡ true → a ≡ b) where
  -- A file that the journal calls for is not ahead of it.
  called_for :
      (dir : Directory P R)
      → IsRecoverable known dir
      → (k : Key) (c : Content P) (o : Option (Event P R)) → newest k dir.events ≡ o
      → content_of_event o ≡ some c
      → (e : Event P R) × (newest k dir.events ≡ some e) × Behind (some c) e
  called_for dir v k c none n h = cc
  called_for dir v k c (some e) n h =
      let (m, i) = newest-source k dir.events e n in
      let s = v.logged e m (commits-committed k e i) in
      let q : c ≡ readable s.wrapper = ground (arith, s.carried) in
      (e, n, rw q (omega (arith, s.of_revision)))

  -- Recovered files under their journal.
  recovered-IsCurrent :
      (dir dir' : Directory P R) (warnings : List Key)
      → IsRecoverable known dir
      → repair_snapshots known same dir ≡ ok (dir', warnings)
      → IsCurrent known dir'
  recovered-IsCurrent dir dir' warnings v h =
      let (d, ws, ended, kept, u, all) = repair_snapshots-journal_content known dir v same sound in
      let q : d ≡ dir' = ground arith in subst (λ x. IsCurrent known x) q (agreeing d kept u all)
    where
      agreeing :
          (d : Directory P R)
          → d.events ≡ dir.events
          → NodupKeys d.files
          → ((k : Key) → find k d.files ≡ journal_content k dir.events)
          → IsCurrent known d
      agreeing d kept u all = record {
        recoverable = record {
          logged = λ e m i. v.logged e (subst (λ es. Memᴰ e es) kept m) i;
          files_distinct = u;
          behind = λ k c f. rw kept (
              called_for dir v k c (newest k dir.events) refl
                (unfold journal_content in sym (all k) ∙ f));
        };
        current = λ k c f. rw kept (sym (all k) ∙ f);
      }

  -- What a start leaves of a directory.
  pub record IsRestored (ps : Projectors P) (dir left : Directory P R) : Type 0 where
    pub current : IsCurrent known left
    pub extends : (es : List (Event P R)) × (left.events ≡ dir.events ++ es)
    pub restored :
        (k : Key)
        → is_projection ps k.object_type ≡ false
        → find k left.files ≡ journal_content k dir.events

  module _ (ps : Projectors P) (recovery_key : ℕ → String → String → String) (task_id : String)
      (now : ℕ) (path : String → String → String) (parts : KnowsParts known ps) where
    reconciled_start-directory :
        (warnings : List Key) (registry : Registry R) (s : State P R)
        → (reconciled_start warnings registry s).1.0 ≡ s.1
    reconciled_start-directory warnings registry (ok x, d) = refl
    reconciled_start-directory warnings registry (err e, d) = refl
    reconciled_start-directory warnings registry (fault e, d) = refl

    remembered_start-ok :
        (dir : Directory P R) (s : Outcome (Unit {0}) × Registry R)
        → s.0 ≡ ok tt
        → remembered_start ps same recovery_key task_id now known dir s
          ≡ repaired_start ps same recovery_key task_id now dir s.1
              (repair_snapshots known same dir)
    remembered_start-ok dir (ok x, registry) h = refl
    remembered_start-ok dir (err e, registry) h = cc
    remembered_start-ok dir (fault e, registry) h = cc

    -- The directory that a start leaves, whatever it raises once the committed results are recorded.
    pub recover-IsRestored :
        (dir : Directory P R) (registry : Registry R)
        → IsRecoverable known dir
        → (recover_idempotency_results path task_id dir.events registry).0 ≡ ok tt
        → IsRestored ps dir (recover ps same recovery_key task_id now path known dir registry).1.0
    unfolding recover
    recover-IsRestored dir registry v h =
        let (d, ws, ended, kept, u, all) =
          repair_snapshots-journal_content known dir v same sound in
        let later : IsLater known ps d
            (reconcile_plan_projections ps same recovery_key task_id now d).1 =
          reconcile_plan_projections-Keeps known ps same recovery_key task_id now parts d
            (recovered-IsCurrent dir d ws v ended) in
        let registry' = (recover_idempotency_results path task_id dir.events registry).1 in
        rw
          (
            remembered_start-ok dir (recover_idempotency_results path task_id dir.events registry)
                h,
            ended,
            reconciled_start-directory ws registry'
                (reconcile_plan_projections ps same recovery_key task_id now d),
          )
          (record {
            current = later.current;
            extends = let (es, p) = later.extends in (es, p ∙ ap (λ l. l ++ es) kept);
            restored = λ k n. later.frame k n ∙ all k;
          })

    -- The outcome of a start and the directory that it leaves.
    pub record IsStarted (dir : Directory P R) (left : Started P R) : Type 0 where
      pub repaired : Directory P R
      pub warnings : List Key
      pub was_repaired : (k : Key) → find k repaired.files ≡ journal_content k dir.events
      pub outcome : left.0 ≡ (
          (reconcile_plan_projections ps same recovery_key task_id now repaired).0 >>= λ _.
          ok warnings)
      pub is_restored : IsRestored ps dir left.1.0
