-- ===== src/Storage/Restart/Frame.antt =====
-- backend/harness/storage/store.py: what the reconciliation of a plan's files leaves alone.
use agentic_design_harness.Common.{
  if◌then◌else◌, elem, Outcome, ok, err, fault, ℕ, String, ◌≡◌, refl, ap, ◌∙◌, ◌⊎◌, inl, inr, Bool,
  true, false, ◌||◌, Option, none, some, List, [], ◌∷◌, ◌++◌, map, arith, ◌==◌, eq_iff,
}
use agentic_design_harness.Storage.{
  Key, same_key_iff, find-put, find-drop, drop-NodupKeys, find, drop, Wrapper, Event, readable,
  Directory,
}
use agentic_design_harness.Storage.Identifier.{validate_identifier}
use agentic_design_harness.Storage.Repository.{
  Repository, Commit, object_key, read_wrapper, make_event, prepare_put, put_object,
}
use agentic_design_harness.Storage.Atomicity.{IsCurrent}
use agentic_design_harness.Storage.Atomicity.Crash.{
  appended, written, put_object-directory, put_object-refused, put_object-IsCurrent,
}
use agentic_design_harness.Storage.Restart.{
  Projectors, holds, list_payloads, State, and_then, reading, without_result, reconcile_one,
  reconcile_each, unlink_absent, retire_one, retire_plan_projections, reconcile_plan,
  reconcile_found, reconcile_plan_projections,
}

-- The objects whose files follow from the plan.
abbrev pub is_projection : {P : Type 0} → Projectors P → String → Bool
is_projection ps t =
    (t == ps.task.object_type) || (t == ps.stage.object_type) || (t == ps.instance_repo.object_type)

-- A repository of projections, whose objects the store knows.
abbrev pub Knows : {P : Type 0} → (String → Bool) → Projectors P → Repository P → Type 0
Knows known ps repo = (is_projection ps repo.object_type ≡ true) × (known repo.object_type ≡ true)

-- The store knows the types of a plan's parts.
abbrev pub KnowsParts : {P : Type 0} → (String → Bool) → Projectors P → Type 0
KnowsParts known ps =
    (known ps.task.object_type ≡ true)
    × (known ps.stage.object_type ≡ true)
    × (known ps.instance_repo.object_type ≡ true)

knows_parts :
    {P : Type 0} (known : String → Bool) (ps : Projectors P)
    → KnowsParts known ps
    → Knows known ps ps.task × Knows known ps ps.stage × Knows known ps ps.instance_repo
knows_parts known ps (t, s, i) = (
  (ground (arith, eq_iff ps.task.object_type ps.task.object_type), t),
  (ground (arith, eq_iff ps.stage.object_type ps.stage.object_type), s),
  (ground (arith, eq_iff ps.instance_repo.object_type ps.instance_repo.object_type), i),
)

-- What the statements that follow the repair keep of a directory.
pub record IsLater {P R : Type 0} (known : String → Bool) (ps : Projectors P)
    (old new : Directory P R) : Type 0 where
  pub current : IsCurrent known new
  pub extends : (es : List (Event P R)) × (new.events ≡ old.events ++ es)
  pub frame :
      (k : Key) → is_projection ps k.object_type ≡ false → find k new.files ≡ find k old.files

append_assoc : {A : Type 0} (xs ys zs : List A) → (xs ++ ys) ++ zs ≡ xs ++ (ys ++ zs)
append_assoc [] ys zs = refl
append_assoc (x ∷ xs) ys zs = ap (λ l. x ∷ l) (append_assoc xs ys zs)

append_nil : {A : Type 0} (xs : List A) → xs ≡ xs ++ []
append_nil [] = refl
append_nil (x ∷ xs) = ap (λ l. x ∷ l) (append_nil xs)

module _ {P R : Type 0} (known : String → Bool) (ps : Projectors P) where
  IsLater-refl : (dir : Directory P R) → IsCurrent known dir → IsLater known ps dir dir
  IsLater-refl dir v = record {
    current = v;
    extends = ([], append_nil dir.events);
    frame = λ k n. refl;
  }

  IsLater-trans :
      (a b c : Directory P R) → IsLater known ps a b → IsLater known ps b c → IsLater known ps a c
  IsLater-trans a b c ab bc = record {
    current = bc.current;
    extends =
        let (es, p) = ab.extends in
        let (fs, q) = bc.extends in
        (es ++ fs, q ∙ ap (λ l. l ++ fs) p ∙ append_assoc a.events es fs);
    frame = λ k n. bc.frame k n ∙ ab.frame k n;
  }

  -- A put of a projection.
  put_object-IsLater :
      (repo : Repository P) (task_id : String) (c : Commit P R) (dir : Directory P R)
      → is_projection ps repo.object_type ≡ true
      → known repo.object_type ≡ true
      → c.crash ≡ none
      → IsCurrent known dir
      → IsLater known ps dir (put_object repo task_id c dir).1
  put_object-IsLater repo task_id c dir t n q v = by_check (prepare_put repo task_id c dir) refl
    where
      same_events :
          (w : Wrapper P) (d : Directory P R)
          → (d ≡ appended repo task_id c dir w) ⊎ (d ≡ written repo task_id c dir w)
          → (d.events ≡ dir.events ++ make_event c w ∷ [])
            × ((k : Key)
                → is_projection ps k.object_type ≡ false
                → find k d.files ≡ find k dir.files)
      same_events w d (inl e) = rw e (refl, λ k f. refl)
      same_events w d (inr e) = rw e (
        refl,
        λ k f. ground (
          arith,
          find-put k (object_key repo c.object_id) (readable w) dir.files,
          same_key_iff k (object_key repo c.object_id),
        ),
      )

      by_check :
          (o : Outcome (Wrapper P))
          → prepare_put repo task_id c dir ≡ o
          → IsLater known ps dir (put_object repo task_id c dir).1
      by_check (ok w) h =
          let (s, f) =
            same_events w (put_object repo task_id c dir).1
              (put_object-directory repo task_id c dir w h) in
          record {
            current = put_object-IsCurrent repo task_id c dir known v n q;
            extends = (make_event c w ∷ [], s);
            frame = f;
          }
      by_check (err x) h =
          rw (put_object-refused repo task_id c dir (λ w e. cc)) (IsLater-refl dir v)
      by_check (fault x) h =
          rw (put_object-refused repo task_id c dir (λ w e. cc)) (IsLater-refl dir v)

  -- An unlink of a projection.
  dropped-IsLater :
      (repo : Repository P) (id : String) (dir : Directory P R)
      → is_projection ps repo.object_type ≡ true
      → IsCurrent known dir
      → IsLater known ps dir (record dir { files = drop (object_key repo id) dir.files })
  dropped-IsLater repo id dir t v = record {
    current = record {
      recoverable = record {
        logged = v.recoverable.logged;
        files_distinct = drop-NodupKeys (object_key repo id) dir.files v.recoverable.files_distinct;
        behind = λ j c f.
            v.recoverable.behind j c (ground (arith, find-drop j (object_key repo id) dir.files));
      };
      current = λ j c f. v.current j c (ground (arith, find-drop j (object_key repo id) dir.files));
    };
    extends = ([], append_nil dir.events);
    frame = λ k f.
        ground
          (arith, find-drop k (object_key repo id) dir.files, same_key_iff k (object_key repo id));
  }

  -- A statement keeps these, whether it raises or not.
  abbrev pub Keeps : (Directory P R → State P R) → Type 0
  Keeps run = (dir : Directory P R) → IsCurrent known dir → IsLater known ps dir (run dir).1

  and_then-IsLater :
      (dir : Directory P R) (s : State P R) (next : Directory P R → State P R)
      → IsLater known ps dir s.1
      → Keeps next
      → IsLater known ps dir (and_then s next).1
  and_then-IsLater dir (ok x, d) next l k = IsLater-trans dir d (next d).1 l (k d l.current)
  and_then-IsLater dir (err e, d) next l k = l
  and_then-IsLater dir (fault e, d) next l k = l

  then_Keeps : (f g : Directory P R → State P R) → Keeps f → Keeps g → Keeps (λ d. and_then (f d) g)
  then_Keeps f g kf kg dir v = and_then-IsLater dir (f dir) g (kf dir v) kg

  reading-IsLater :
      {A : Type 0} (dir : Directory P R) (o : Outcome A) (next : A → State P R)
      → IsCurrent known dir
      → ((a : A) → IsLater known ps dir (next a).1)
      → IsLater known ps dir (reading dir o next).1
  reading-IsLater dir (ok a) next v k = k a
  reading-IsLater dir (err e) next v k = IsLater-refl dir v
  reading-IsLater dir (fault e) next v k = IsLater-refl dir v

  choosing-IsLater :
      (dir : Directory P R) (b : Bool) (s t : State P R)
      → IsLater known ps dir s.1
      → IsLater known ps dir t.1
      → IsLater known ps dir (if b then s else t).1
  choosing-IsLater dir true s t l m = l
  choosing-IsLater dir false s t l m = m

  without_result-directory : (o : Outcome (Wrapper P) × Directory P R) → (without_result o).1 ≡ o.1
  without_result-directory (ok w, d) = refl
  without_result-directory (err e, d) = refl
  without_result-directory (fault e, d) = refl

  module _ (same : P → P → Bool) (recovery_key : ℕ → String → String → String) (task_id : String)
      (now revision : ℕ) where
    reconcile_one-Keeps :
        (repo : Repository P) (id : String) (payload : P)
        → Knows known ps repo
        → Keeps (reconcile_one ps same recovery_key task_id now revision repo id payload)
    unfolding reconcile_one
    reconcile_one-Keeps repo id payload (t, n) dir v =
        reading-IsLater dir (read_wrapper repo task_id id dir) _ v (λ current.
          choosing-IsLater dir (holds same payload current) _ _ (IsLater-refl dir v)
            (rw (without_result-directory _) (put_object-IsLater repo task_id _ dir t n refl v)))

    reconcile_each-Keeps :
        (repo : Repository P) (id_of : P → String) (xs : List P)
        → Knows known ps repo
        → Keeps (reconcile_each ps same recovery_key task_id now revision repo id_of xs)
    unfolding reconcile_each
    reconcile_each-Keeps repo id_of [] k dir v = IsLater-refl dir v
    reconcile_each-Keeps repo id_of (x ∷ xs) k dir v =
        and_then-IsLater dir _ _ (reconcile_one-Keeps repo (id_of x) x k dir v)
          (reconcile_each-Keeps repo id_of xs k)

    unlink_absent-Keeps :
        (repo : Repository P) (id_of : P → String) (active : List String) (xs : List P)
        → Knows known ps repo
        → Keeps (unlink_absent ps same recovery_key task_id now repo id_of active xs)
    unfolding unlink_absent
    unlink_absent-Keeps repo id_of active [] k dir v = IsLater-refl dir v
    unlink_absent-Keeps repo id_of active (x ∷ xs) k dir v =
        let gone = dropped-IsLater repo (id_of x) dir k.0 v in
        choosing-IsLater dir (elem (id_of x) active) _ _
          (unlink_absent-Keeps repo id_of active xs k dir v)
          (reading-IsLater dir (validate_identifier (id_of x)) _ v (λ _.
            IsLater-trans dir _ _ gone (unlink_absent-Keeps repo id_of active xs k _ gone.current)))

    retire_one-Keeps :
        (repo : Repository P) (id_of : P → String) (parts : List P)
        → Knows known ps repo
        → Keeps (retire_one ps same recovery_key task_id now repo id_of parts)
    unfolding retire_one
    retire_one-Keeps repo id_of parts k dir v =
        reading-IsLater dir (validate_identifier task_id) _ v (λ _.
          reading-IsLater dir (list_payloads repo dir.files) _ v
            (λ payloads. unlink_absent-Keeps repo id_of (map id_of parts) payloads k dir v))

  module _ (same : P → P → Bool) (recovery_key : ℕ → String → String → String) (task_id : String)
      (now : ℕ) (k : KnowsParts known ps) where
    reconcile_plan-Keeps :
        (at_revision : ℕ) (plan : P)
        → Keeps (reconcile_plan ps same recovery_key task_id now at_revision plan)
    unfolding reconcile_plan retire_plan_projections
    reconcile_plan-Keeps at_revision plan dir v =
        let (t, s, i) = knows_parts known ps k in
        let put_task =
          reconcile_one ps same recovery_key task_id now at_revision ps.task task_id
            (ps.task_of plan) in
        let put_stages =
          reconcile_each ps same recovery_key task_id now at_revision ps.stage ps.stage_id
            (ps.stages_of plan) in
        let put_instances =
          reconcile_each ps same recovery_key task_id now at_revision ps.instance_repo
            ps.instance_id (ps.instances_of plan) in
        let retire_stages =
          retire_one ps same recovery_key task_id now ps.stage ps.stage_id (ps.stages_of plan) in
        let retire_instances =
          retire_one ps same recovery_key task_id now ps.instance_repo ps.instance_id
            (ps.instances_of plan) in
        let retire = λ (d : Directory P R). and_then (retire_stages d) retire_instances in
        let last = λ (d : Directory P R). and_then (put_instances d) retire in
        let rest = λ (d : Directory P R). and_then (put_stages d) last in
        let retired : Keeps retire =
          then_Keeps retire_stages retire_instances
            (retire_one-Keeps same recovery_key task_id now at_revision ps.stage ps.stage_id
              (ps.stages_of plan) s)
            (retire_one-Keeps same recovery_key task_id now at_revision ps.instance_repo
              ps.instance_id (ps.instances_of plan) i) in
        let finished : Keeps last =
          then_Keeps put_instances retire
            (reconcile_each-Keeps same recovery_key task_id now at_revision ps.instance_repo
              ps.instance_id (ps.instances_of plan) i)
            retired in
        let staged : Keeps rest =
          then_Keeps put_stages last
            (reconcile_each-Keeps same recovery_key task_id now at_revision ps.stage ps.stage_id
              (ps.stages_of plan) s)
            finished in
        then_Keeps put_task rest
          (reconcile_one-Keeps same recovery_key task_id now at_revision ps.task task_id
            (ps.task_of plan) t)
          staged dir v

    -- `_reconcile_plan_projections`, done or cut short by an error, leaves a current directory, only
    -- appends to the journal, and changes files of tasks, stages and instances alone.
    pub reconcile_plan_projections-Keeps :
        Keeps (reconcile_plan_projections ps same recovery_key task_id now)
    unfolding reconcile_plan_projections
    reconcile_plan_projections-Keeps dir v =
        reading-IsLater dir (read_wrapper ps.plan task_id task_id dir) _ v by_plan
      where
        by_plan :
            (current : Option (Wrapper P))
            → IsLater known ps dir (reconcile_found ps same recovery_key task_id now dir current).1
        by_plan none = IsLater-refl dir v
        by_plan (some w) = reconcile_plan-Keeps w.revision w.payload dir v
