-- ===== src/Storage/Idempotency.antt =====
-- backend/harness/storage/idempotency.py, storage/store.py `lookup_committed_command_result` and
-- domain/service.py `_idempotent`: a command runs once for its key. The digest of a request, the file of
-- a scope and key, the comparison of results and what a command does to the store are parameters.
pub mod Replay
use agentic_design_harness.Common.{
  if◌then◌else◌, is_some, Code, idempotency_conflict, runtime_error, Outcome, ok, err, fault, guard,
  ◌>>=◌, ◌>>◌, Dict, lookup, insert, String, Bool, true, ◌||◌, not, Option, none, some, List, [],
  ◌∷◌, ◌==◌,
}
use agentic_design_harness.Storage.{Event}
use agentic_design_harness.Storage.Identifier.{validate_identifier}

-- A stored record; the fields that only tell where it comes from are left out.
pub record Record (R : Type 0) : Type 0 where
  pub request_sha256 : String
  pub result : R

abbrev pub Registry : Type 0 → Type 0
Registry R = Dict (Record R)

-- A command as it was sent, with the digest of its request.
pub record Sent : Type 0 where
  pub scope : String
  pub idempotency_key : String
  pub command : String
  pub request_sha256 : String

abbrev pub file_of : (String → String → String) → Sent → String
file_of path sent = path sent.scope sent.idempotency_key

module _ {R : Type 0} (path : String → String → String) where
  -- `IdempotencyRepository.lookup`, with the record that was found.
  unfoldable pub recall_record : Sent → Option (Record R) → Outcome (Option R)
  recall_record sent none = ok none
  recall_record sent (some r) = do
    guard (r.request_sha256 == sent.request_sha256) Code.idempotency_conflict
    ok (some r.result)

  unfoldable pub recall : Sent → Registry R → Outcome (Option R)
  unfolding recall_record
  recall sent registry = recall_record sent (lookup (file_of path sent) registry)

  -- `remember_digest`
  unfoldable pub remember_digest : Sent → R → Registry R → Outcome (R × Registry R)
  unfolding recall
  remember_digest sent result registry = do
    known ← recall sent registry
    elim known [
      | none ↦ ok (
        result,
        insert (file_of path sent)
            (record { request_sha256 = sent.request_sha256; result = result }) registry,
      )
      | some old ↦ ok (old, registry)
    ]

module _ {P R : Type 0} where
  -- `event.get("command") != command or event.get("request_sha256") != request_sha256`
  abbrev pub other_request : Sent → Event P R → Bool
  other_request sent e =
      not (e.command == sent.command)
      || elim e.request_sha256 [ none ↦ true | some sha ↦ not (sha == sent.request_sha256) ]

  -- The loop of `lookup_committed_command_result`, from what was found so far.
  unfoldable pub committed_from : Option R → Sent → List (Event P R) → Outcome (Option R)
  committed_from found sent [] = ok found
  committed_from found sent (e ∷ events) =
      let other = committed_from found sent events in
      let own = committed_from e.command_result sent events in
      if not (is_some e.command_result) || not (e.idempotency_key == sent.idempotency_key)
      then other
      else if other_request sent e
      then err Code.idempotency_conflict
      else own

  unfoldable pub committed_result : Sent → List (Event P R) → Outcome (Option R)
  unfolding committed_from
  committed_result = committed_from none

module _ {S P R : Type 0} (events_of : S → List (Event P R)) (path : String → String → String)
    (same : R → R → Bool) where
  -- What a command leaves: the store, the registry and its outcome.
  abbrev pub Left : Type 0
  Left = (S × Registry R) × Outcome R

  abbrev pub remembered : S → Registry R → Outcome (R × Registry R) → Left
  remembered store registry (ok (result, next)) = ((store, next), ok result)
  remembered store registry (err e) = ((store, registry), err e)
  remembered store registry (fault e) = ((store, registry), fault e)

  abbrev pub confirmed : Sent → R → S → Registry R → Outcome (Option R) → Left
  confirmed sent result store registry (ok (some committed)) =
      if same committed result
      then remembered store registry (remember_digest path sent committed registry)
      else ((store, registry), fault runtime_error)
  confirmed sent result store registry (ok none) = ((store, registry), fault runtime_error)
  confirmed sent result store registry (err e) = ((store, registry), err e)
  confirmed sent result store registry (fault e) = ((store, registry), fault e)

  -- The operation has run: its result must be the one that it committed.
  abbrev pub executed : Sent → Registry R → S × Outcome R → Left
  executed sent registry (store, ok result) =
      confirmed sent result store registry (committed_result sent (events_of store))
  executed sent registry (store, err e) = ((store, registry), err e)
  executed sent registry (store, fault e) = ((store, registry), fault e)

  abbrev pub unless_committed :
      Sent → (S → S × Outcome R) → S → Registry R → Outcome (Option R) → Left
  unless_committed sent operation store registry (ok (some committed)) =
      remembered store registry (remember_digest path sent committed registry)
  unless_committed sent operation store registry (ok none) =
      executed sent registry (operation store)
  unless_committed sent operation store registry (err e) = ((store, registry), err e)
  unless_committed sent operation store registry (fault e) = ((store, registry), fault e)

  abbrev pub unless_known : Sent → (S → S × Outcome R) → S → Registry R → Outcome (Option R) → Left
  unless_known sent operation store registry (ok (some existing)) = ((store, registry), ok existing)
  unless_known sent operation store registry (ok none) =
      unless_committed sent operation store registry (committed_result sent (events_of store))
  unless_known sent operation store registry (err e) = ((store, registry), err e)
  unless_known sent operation store registry (fault e) = ((store, registry), fault e)

  abbrev pub when_valid : Sent → (S → S × Outcome R) → S → Registry R → Outcome (Unit {0}) → Left
  when_valid sent operation store registry (ok _) =
      unless_known sent operation store registry (recall path sent registry)
  when_valid sent operation store registry (err e) = ((store, registry), err e)
  when_valid sent operation store registry (fault e) = ((store, registry), fault e)

  -- `_idempotent`
  unfoldable pub idempotent : Sent → (S → S × Outcome R) → S → Registry R → Left
  unfolding recall remember_digest committed_result
  idempotent sent operation store registry =
      when_valid sent operation store registry (validate_identifier sent.scope)
