-- ===== src/Storage/Atomicity/History.antt =====
-- backend/harness/storage: writes, removals, crashes and restarts in any order.
use agentic_design_harness.Common.{
  Outcome, ok, err, fault, ℕ, String, ◌≡◌, refl, Bool, true, none, [],
}
use agentic_design_harness.Storage.{find, Actor, Wrapper, Directory}
use agentic_design_harness.Storage.Repository.{
  Repository, Commit, prepare_put, put_object, delete_object,
}
use agentic_design_harness.Storage.Recovery.Agreement.{IsRecoverable}
use agentic_design_harness.Storage.Atomicity.{IsCurrent}
use agentic_design_harness.Storage.Atomicity.Crash.{
  outcome, put_object-refused, put_object-IsCurrent,
}
use agentic_design_harness.Storage.Atomicity.Removal.{delete_object-IsCurrent}
use agentic_design_harness.Storage.Idempotency.{Registry}
use agentic_design_harness.Storage.Restart.{Projectors, recover_idempotency_results, recover}
use agentic_design_harness.Storage.Restart.Frame.{KnowsParts}
use agentic_design_harness.Storage.Restart.Durability.{recover-IsRestored}

module _ {P R : Type 0} (known : String → Bool) (same : P → P → Bool) (ps : Projectors P)
    (recovery_key : ℕ → String → String → String) (path : String → String → String) where
  -- What the one writer of a task directory does: a write that ends, a removal, or a write that may
  -- be interrupted, with the start that follows, whether it raises or not, once the results of
  -- committed commands are recorded.
  pub data Step (dir dir' : Directory P R) : Type 0 where
    writes :
        (repo : Repository P) (task_id : String) (c : Commit P R)
        → known repo.object_type ≡ true
        → c.crash ≡ none
        → dir' ≡ (put_object repo task_id c dir).1
        → Step dir dir'
    removes :
        (repo : Repository P) (task_id object_id : String) (expected : ℕ) (actor : Actor)
        (command key : String) (now : ℕ)
        → dir' ≡ (delete_object repo task_id object_id expected actor command key now dir).1
        → Step dir dir'
    restarts :
        (repo : Repository P) (task_id : String) (c : Commit P R) (registry : Registry R) (now : ℕ)
        → known repo.object_type ≡ true
        → (recover_idempotency_results path task_id
            (put_object repo task_id c dir).1.events
            registry).0
          ≡ ok tt
        → dir'
          ≡ (recover ps same recovery_key task_id now path known
              (put_object repo task_id c dir).1
              registry).1.0
        → Step dir dir'

  pub data Reach : Directory P R → Type 0 where
    start : Reach (record { events = []; files = [] })
    next : {dir dir' : Directory P R} → Reach dir → Step dir dir' → Reach dir'

  empty-IsCurrent : IsCurrent {P = P} {R = R} known (record { events = []; files = [] })
  unfolding find
  empty-IsCurrent = record {
    recoverable = record {
      logged = λ e m i. elim m [ ];
      files_distinct = tt;
      behind = λ k c f. cc;
    };
    current = λ k c f. cc;
  }

  interrupted-IsRecoverable :
      (repo : Repository P) (task_id : String) (c : Commit P R) (dir : Directory P R)
      → IsCurrent known dir
      → known repo.object_type ≡ true
      → IsRecoverable known (put_object repo task_id c dir).1
  interrupted-IsRecoverable repo task_id c dir v n = by_check (prepare_put repo task_id c dir) refl
    where
      by_check :
          (o : Outcome (Wrapper P))
          → prepare_put repo task_id c dir ≡ o
          → IsRecoverable known (put_object repo task_id c dir).1
      by_check (ok w) h = (outcome repo task_id c dir known w v n h).0
      by_check (err x) h = rw (put_object-refused repo task_id c dir (λ w e. cc)) v.recoverable
      by_check (fault x) h = rw (put_object-refused repo task_id c dir (λ w e. cc)) v.recoverable

  -- Where the store knows the types of a plan's parts, and payloads that are called the same are equal:
  -- every directory that writes, removals, crashes and starts lead to is current, that is, what stands
  -- in a file is what the newest committed event of its object carries. A start counts once it has
  -- recorded the results of committed commands, whether it then raises or not.
  pub Reach-IsCurrent :
      (dir : Directory P R)
      → ((a b : P) → same a b ≡ true → a ≡ b)
      → KnowsParts known ps
      → Reach dir
      → IsCurrent known dir
  Reach-IsCurrent dir sound parts start = empty-IsCurrent
  Reach-IsCurrent dir sound parts (next {dir = old} r (writes repo task_id c n q e)) =
      rw e (put_object-IsCurrent repo task_id c old known (Reach-IsCurrent old sound parts r) n q)
  Reach-IsCurrent dir sound parts
        (next {dir = old} r (removes repo task_id object_id expected actor command key now e)) =
      rw e (
        delete_object-IsCurrent repo task_id object_id expected actor command key now old known
          (Reach-IsCurrent old sound parts r))
  Reach-IsCurrent dir sound parts
        (next {dir = old} r (restarts repo task_id c registry now n h e)) =
      rw e (
        (recover-IsRestored known same sound ps recovery_key task_id now path parts
          (put_object repo task_id c old).1 registry
          (interrupted-IsRecoverable repo task_id c old (Reach-IsCurrent old sound parts r) n)
          h).current)
