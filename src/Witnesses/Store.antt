-- ===== src/Witnesses/Store.antt =====
-- The theorems on the event store at concrete inputs: an empty task directory, and one write of an
-- plan whose payload is a number.
use agentic_design_harness.Common.{
  eqb, eqb_iff, length, Outcome, ok, ℕ, String, ◌≡◌, refl, Bool, true, false, ◌||◌, Option, none,
  some, [], ◌∷◌, ◌==◌,
}
use agentic_design_harness.Storage.{Key, same_key, find, put, Actor, Wrapper, readable, Directory}
use agentic_design_harness.Storage.Identifier.{validate_identifier}
use agentic_design_harness.Storage.Repository.{
  Repository, Checkpoint, after_event_append, Commit, object_key, read_content, read_wrapper,
  revision, newest_revision, base_revision, make_wrapper, make_event, interrupt, commit_wrapper,
  prepare_put, put_object, removal_event, delete_object,
}
use agentic_design_harness.Storage.Recovery.{
  prefer, note_event, collect, latest_events, repair, try_read, repair_one, repair_all, check_files,
  repair_snapshots,
}
use agentic_design_harness.Storage.Recovery.Agreement.{journal_content}
use agentic_design_harness.Storage.Idempotency.{Registry}
use agentic_design_harness.Storage.Restart.{
  Projectors, remember_event, recover_idempotency_results, list_payloads, reconcile_one,
  reconcile_each, unlink_absent, retire_one, retire_plan_projections, reconcile_plan,
  reconcile_plan_projections, recover,
}
use agentic_design_harness.Storage.Restart.Frame.{is_projection, KnowsParts}
use agentic_design_harness.Storage.Restart.Writes.{
  started, put_object-recover, delete_object-recover,
}
use agentic_design_harness.Storage.Atomicity.{IsCurrent}
use agentic_design_harness.Storage.Atomicity.Crash.{put_object-IsCurrent}
use agentic_design_harness.Storage.Atomicity.History.{writes, start, next, Reach-IsCurrent}

abbrev new_dir : Directory ℕ String
new_dir = record { events = []; files = [] }

abbrev repository_of : String → Repository ℕ
repository_of t = record { object_type = t; validator = λ n. ok tt }

abbrev plans : Repository ℕ
plans = repository_of "plan"

-- A plan is a number, and so are its task, its one stage and its one instance.
abbrev number_plans : Projectors ℕ
number_plans = record {
  plan = plans;
  task = repository_of "task";
  stage = repository_of "stage";
  instance_repo = repository_of "instance";
  task_of = λ n. n;
  stages_of = λ n. n ∷ [];
  instances_of = λ n. n ∷ [];
  stage_id = λ n. "s-1";
  instance_id = λ n. "i-1";
}

abbrev key_by_type : ℕ → String → String → String
key_by_type revision object_type object_id = object_type

abbrev by_key : String → String → String
by_key scope key = key

abbrev operator : Actor
operator = record { actor_type = "user"; actor_id = "operator" }

abbrev write_of : Option Checkpoint → Commit ℕ String
write_of crash = record {
  object_id = "task-1";
  payload = 7;
  expected_revision = 0;
  actor = operator;
  command = "create";
  idempotency_key = "k-1";
  command_result = none;
  request_sha256 = none;
  now = 5;
  crash = crash;
}

abbrev first_wrapper : Wrapper ℕ
first_wrapper = record {
  object_type = "plan";
  object_id = "task-1";
  revision = 1;
  payload = 7;
  committed_at = 5;
}

abbrev known_types : String → Bool
known_types t = (t == "plan") || (t == "task") || (t == "stage") || (t == "instance")

eqb_sound : (a b : ℕ) → eqb a b ≡ true → a ≡ b
eqb_sound a b h = (eqb_iff a b).0 h

new_dir-IsCurrent : IsCurrent known_types new_dir
unfolding find
new_dir-IsCurrent = record {
  recoverable = record { logged = λ e m i. elim m [ ]; files_distinct = tt; behind = λ k c f. cc };
  current = λ k c f. cc;
}

checked : prepare_put plans "task-1" (write_of (some after_event_append)) new_dir ≡ ok first_wrapper
unfolding prepare_put read_wrapper validate_identifier read_content find base_revision make_wrapper
checked = refl

parts_known : KnowsParts known_types number_plans
parts_known = (refl, refl, refl)

nothing_recorded : Registry String
nothing_recorded = []

abbrev cut_off : Directory ℕ String
cut_off = (put_object plans "task-1" (write_of (some after_event_append)) new_dir).1

remembers_cut_off :
    (recover_idempotency_results by_key "task-1" cut_off.events nothing_recorded).0 ≡ ok tt
unfolding recover_idempotency_results remember_event put_object commit_wrapper interrupt prepare_put
    read_wrapper validate_identifier read_content find make_event
remembers_cut_off = refl

put_object-recover_example :
    (find
        (object_key plans "task-1")
        (started known_types eqb eqb_sound number_plans key_by_type by_key parts_known plans
          "task-1" 9 nothing_recorded new_dir cut_off).files
      ≡ some (readable first_wrapper))
    × ((j : Key)
        → same_key j (object_key plans "task-1") ≡ false
        → is_projection number_plans j.object_type ≡ false
        → find j
            (started known_types eqb eqb_sound number_plans key_by_type by_key parts_known plans
              "task-1" 9 nothing_recorded new_dir cut_off).files
          ≡ journal_content {R = String} j [])
put_object-recover_example =
    put_object-recover known_types eqb eqb_sound number_plans key_by_type by_key parts_known plans
      "task-1" 9 nothing_recorded new_dir (write_of (some after_event_append)) first_wrapper
      new_dir-IsCurrent refl refl checked remembers_cut_off

after_write : Directory ℕ String
after_write = (put_object plans "task-1" (write_of none) new_dir).1

after_write-IsCurrent : IsCurrent known_types after_write
unfolding after_write
after_write-IsCurrent =
    put_object-IsCurrent plans "task-1" (write_of none) new_dir known_types new_dir-IsCurrent refl
      refl

-- The plan's one event is followed by those of its task, its stage and its instance.
start_reconciles :
    length
      (recover number_plans eqb key_by_type "task-1" 9 by_key known_types cut_off
        nothing_recorded).1.0.events
    ≡ 4
unfolding recover recover_idempotency_results remember_event repair_snapshots latest_events collect
    note_event prefer repair_all repair_one repair try_read check_files find put same_key put_object
    commit_wrapper interrupt prepare_put read_wrapper validate_identifier read_content make_wrapper
    make_event base_revision newest_revision reconcile_plan_projections reconcile_plan reconcile_one
    reconcile_each retire_plan_projections retire_one unlink_absent list_payloads
start_reconciles = refl

removed : Outcome Bool × Directory ℕ String
removed = delete_object plans "task-1" "task-1" 1 operator "clear" "k-2" 6 after_write

is_removed : removed.0 ≡ ok true
unfolding put same_key removed delete_object after_write put_object commit_wrapper interrupt
    prepare_put read_wrapper validate_identifier read_content find make_wrapper base_revision
is_removed = refl

was_there : find (object_key plans "task-1") after_write.files ≡ some (readable first_wrapper)
unfolding same_key after_write put_object commit_wrapper interrupt prepare_put read_wrapper
    validate_identifier read_content find make_wrapper base_revision put
was_there = refl

remembers_removal :
    (recover_idempotency_results by_key "task-1" removed.1.events nothing_recorded).0 ≡ ok tt
unfolding recover_idempotency_results remember_event put_object commit_wrapper interrupt prepare_put
    read_wrapper validate_identifier read_content find make_event after_write removed delete_object
    removal_event put same_key make_wrapper base_revision
remembers_removal = refl

delete_object-recover_example :
    (find (object_key plans "task-1") removed.1.files ≡ none)
    × (find
          (object_key plans "task-1")
          (started known_types eqb eqb_sound number_plans key_by_type by_key parts_known plans
            "task-1" 9 nothing_recorded after_write removed.1).files
        ≡ some (readable first_wrapper))
unfolding removed
delete_object-recover_example =
    delete_object-recover known_types eqb eqb_sound number_plans key_by_type by_key parts_known
      plans "task-1" 9 nothing_recorded after_write "task-1" 1 operator "clear" "k-2" 6
      (readable first_wrapper) after_write-IsCurrent refl was_there is_removed remembers_removal

Reach-IsCurrent_example : IsCurrent known_types after_write
unfolding after_write
Reach-IsCurrent_example =
    Reach-IsCurrent known_types eqb number_plans key_by_type by_key after_write eqb_sound
      parts_known (next start (writes plans "task-1" (write_of none) refl refl refl))
