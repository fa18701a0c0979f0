-- ===== src/Storage/Idempotency/Replay.antt =====
-- domain/service.py `_idempotent`: a command that is sent again.
use agentic_design_harness.Common.{
  if◌then◌else◌, Bool-cases, Code, Fault, runtime_error, Outcome, ok, err, fault, ok_inj,
  lookup-insert, lookup, insert, String, ◌≡◌, refl, sym, ap, ◌∙◌, ◌≢◌, inl, inr, Bool, Option, none,
  some, List, arith, eq_iff,
}
use agentic_design_harness.Storage.{Event}
use agentic_design_harness.Storage.Identifier.{validate_identifier}
use agentic_design_harness.Storage.Idempotency.{
  Record, Registry, Sent, file_of, recall_record, recall, remember_digest, committed_result, Left,
  remembered, confirmed, executed, unless_committed, unless_known, when_valid, idempotent,
}

module _ {R : Type 0} (path : String → String → String) where
  -- The record of a result.
  abbrev record_of : Sent → R → Record R
  record_of sent result = record { request_sha256 = sent.request_sha256; result = result }

  remember_digest-new :
      (sent : Sent) (result : R) (registry : Registry R)
      → recall path sent registry ≡ ok none
      → remember_digest path sent result registry
        ≡ ok (result, insert (file_of path sent) (record_of sent result) registry)
  unfolding remember_digest
  remember_digest-new sent result registry h = rw h refl

  recall-insert :
      (sent : Sent) (result : R) (registry : Registry R)
      → recall path sent (insert (file_of path sent) (record_of sent result) registry)
        ≡ ok (some result)
  unfolding recall recall_record
  recall-insert sent result registry =
      let file : String = file_of path sent in
      let found : lookup file (insert file (record_of sent result) registry)
          ≡ some (record_of sent result) =
        lookup-insert file file (record_of sent result) registry
        ∙ ap (λ (b : Bool). if b then some (record_of sent result) else lookup file registry)
            ((eq_iff file file).1 refl) in
      ap (recall_record path sent) found
      ∙ rw ((eq_iff sent.request_sha256 sent.request_sha256).1 refl) refl

  recall_record-conflict :
      (sent other : Sent) (r : Option (Record R)) (result : R)
      → recall_record path sent r ≡ ok (some result)
      → other.request_sha256 ≢ sent.request_sha256
      → recall_record path other r ≡ err Code.idempotency_conflict
  unfolding recall_record
  recall_record-conflict sent other none result h d = cc
  recall_record-conflict sent other (some r) result h d = ground (
    arith,
    h,
    d,
    eq_iff r.request_sha256 sent.request_sha256,
    eq_iff r.request_sha256 other.request_sha256,
  )

fault_not_ok : {R : Type 0} (x : Fault) (r : R) (o : Outcome R) → o ≡ fault x → o ≢ ok r
fault_not_ok x r o e f = cc

module _ {S P R : Type 0} (events_of : S → List (Event P R)) (path : String → String → String)
    (same : R → R → Bool) (sent : Sent) where
  -- What a command that has succeeded leaves behind.
  record IsSettled (registry : Registry R) (result : R) (store : S) (next : Registry R)
      : Type 0 where
    is_known : recall path sent next ≡ ok (some result)
    was_committed :
        recall path sent registry ≡ ok none
        → committed_result sent (events_of store) ≡ ok (some result)
    was_remembered :
        recall path sent registry ≡ ok none
        → remember_digest path sent result registry ≡ ok (result, next)

  remembered-IsSettled :
      (committed : R) (store store' : S) (registry next : Registry R) (result : R)
      → recall path sent registry ≡ ok none
      → committed_result sent (events_of store) ≡ ok (some committed)
      → remembered events_of path same store registry (remember_digest path sent committed registry)
        ≡ ((store', next), ok result)
      → IsSettled registry result store' next
  remembered-IsSettled committed store store' registry next result n c h =
      let new = remember_digest-new path sent committed registry n in
      let left = ap (remembered events_of path same store registry) (sym new) ∙ h in
      let own : committed ≡ result = ok_inj (ap (λ x. x.1) left) in
      let kept : store ≡ store' = ap (λ x. x.0.0) left in
      let file : insert (file_of path sent) (record_of path sent committed) registry ≡ next =
        ap (λ x. x.0.1) left in
      record {
        is_known =
            ap (recall path sent) (sym file)
            ∙ recall-insert path sent committed registry
            ∙ ap (λ r. ok (some r)) own;
        was_committed = λ _.
            ap (λ s. committed_result sent (events_of s)) (sym kept)
            ∙ c
            ∙ ap (λ r. ok (some r)) own;
        was_remembered = λ _.
            ap (λ r. remember_digest path sent r registry) (sym own)
            ∙ new
            ∙ ap (λ r. ok (r, insert (file_of path sent) (record_of path sent committed) registry))
                own
            ∙ ap (λ n. ok (result, n)) file;
      }

  confirmed-IsSettled :
      (o : Outcome (Option R)) (got : R) (store store' : S) (registry next : Registry R)
      (result : R)
      → committed_result sent (events_of store) ≡ o
      → recall path sent registry ≡ ok none
      → confirmed events_of path same sent got store registry o ≡ ((store', next), ok result)
      → IsSettled registry result store' next
  confirmed-IsSettled (ok (some c)) got store store' registry next result e n h =
      let kept =
        remembered events_of path same store registry (remember_digest path sent c registry) in
      let left : Left events_of path same = ((store, registry), fault runtime_error) in
      elim (Bool-cases (same c got)) [
        | inl t ↦
            remembered-IsSettled c store store' registry next result n e
              (sym (ap (λ (b : Bool). if b then kept else left) t) ∙ h)
        | inr f ↦ absurd (
            fault_not_ok runtime_error result (fault runtime_error) refl
              (ap (λ x. x.1) (sym (ap (λ (b : Bool). if b then kept else left) f) ∙ h)))
      ]
  confirmed-IsSettled (ok none) got store store' registry next result e n h = cc
  confirmed-IsSettled (err x) got store store' registry next result e n h = cc
  confirmed-IsSettled (fault x) got store store' registry next result e n h = cc

  executed-IsSettled :
      (ran : S × Outcome R) (store' : S) (registry next : Registry R) (result : R)
      → recall path sent registry ≡ ok none
      → executed events_of path same sent registry ran ≡ ((store', next), ok result)
      → IsSettled registry result store' next
  executed-IsSettled (store, ok got) store' registry next result n h =
      confirmed-IsSettled (committed_result sent (events_of store)) got store store' registry next
        result refl n h
  executed-IsSettled (store, err x) store' registry next result n h = cc
  executed-IsSettled (store, fault x) store' registry next result n h = cc

  unless_committed-IsSettled :
      (o : Outcome (Option R)) (operation : S → S × Outcome R) (store store' : S)
      (registry next : Registry R) (result : R)
      → committed_result sent (events_of store) ≡ o
      → recall path sent registry ≡ ok none
      → unless_committed events_of path same sent operation store registry o
        ≡ ((store', next), ok result)
      → IsSettled registry result store' next
  unless_committed-IsSettled (ok (some c)) operation store store' registry next result e n h =
      remembered-IsSettled c store store' registry next result n e h
  unless_committed-IsSettled (ok none) operation store store' registry next result e n h =
      executed-IsSettled (operation store) store' registry next result n h
  unless_committed-IsSettled (err x) operation store store' registry next result e n h = cc
  unless_committed-IsSettled (fault x) operation store store' registry next result e n h = cc

  unless_known-IsSettled :
      (o : Outcome (Option R)) (operation : S → S × Outcome R) (store store' : S)
      (registry next : Registry R) (result : R)
      → recall path sent registry ≡ o
      → unless_known events_of path same sent operation store registry o
        ≡ ((store', next), ok result)
      → IsSettled registry result store' next
  unless_known-IsSettled (ok (some old)) operation store store' registry next result e h =
      let own : old ≡ result = ok_inj (ap (λ x. x.1) h) in
      record {
        is_known = ap (recall path sent) (sym (ap (λ x. x.0.1) h)) ∙ e ∙ ap (λ r. ok (some r)) own;
        was_committed = λ n. absurd (ground (arith, n, e));
        was_remembered = λ n. absurd (ground (arith, n, e));
      }
  unless_known-IsSettled (ok none) operation store store' registry next result e h =
      unless_committed-IsSettled (committed_result sent (events_of store)) operation store store'
        registry next result refl e h
  unless_known-IsSettled (err x) operation store store' registry next result e h = cc
  unless_known-IsSettled (fault x) operation store store' registry next result e h = cc

  idempotent-IsSettled :
      (operation : S → S × Outcome R) (store store' : S) (registry next : Registry R) (result : R)
      → validate_identifier sent.scope ≡ ok tt
      → idempotent events_of path same sent operation store registry ≡ ((store', next), ok result)
      → IsSettled registry result store' next
  unfolding idempotent
  idempotent-IsSettled operation store store' registry next result v h =
      unless_known-IsSettled (recall path sent registry) operation store store' registry next result
        refl (sym (ap (when_valid events_of path same sent operation store registry) v) ∙ h)

-- What follows of a command that left a store and a registry with a result.
pub record IsReplayed {S P R : Type 0} (events_of : S → List (Event P R))
    (path : String → String → String) (same : R → R → Bool) (sent : Sent) (before : Registry R)
    (store : S) (registry : Registry R) (result : R) : Type 0 where
  pub sent_again :
      (operation : S → S × Outcome R)
      → idempotent events_of path same sent operation store registry
        ≡ ((store, registry), ok result)
  pub sent_after_crash :
      (operation : S → S × Outcome R)
      → recall path sent before ≡ ok none
      → idempotent events_of path same sent operation store before ≡ ((store, registry), ok result)
  pub refused :
      (operation : S → S × Outcome R) (sha : String)
      → sha ≢ sent.request_sha256
      → idempotent events_of path same
          (record sent { request_sha256 = sha })
          operation
          store
          registry
        ≡ ((store, registry), err Code.idempotency_conflict)

-- A command that has succeeded is answered with the same result when it is sent again, whatever it would
-- do by then, and changes nothing. Where a crash came after its commit and before its record, sending it
-- again gives the same result and writes the record. Its key with another request is a conflict.
pub idempotent-IsReplayed :
    {S P R : Type 0} (events_of : S → List (Event P R)) (path : String → String → String)
    (same : R → R → Bool) (sent : Sent) (operation : S → S × Outcome R) (store store' : S)
    (registry next : Registry R) (result : R)
    → validate_identifier sent.scope ≡ ok tt
    → idempotent events_of path same sent operation store registry ≡ ((store', next), ok result)
    → IsReplayed events_of path same sent registry store' next result
unfolding idempotent recall
idempotent-IsReplayed events_of path same sent operation store store' registry next result v h =
    let settled =
      idempotent-IsSettled events_of path same sent operation store store' registry next result v
        h in
    record {
      sent_again = λ again. rw (v, settled.is_known) refl;
      sent_after_crash =
          λ again n. rw (v, n, settled.was_committed n, settled.was_remembered n) refl;
      refused = λ again sha d.
          rw
            (
              v,
              recall_record-conflict path sent (record sent { request_sha256 = sha })
                  (lookup (file_of path sent) next) result settled.is_known d,
            )
            refl;
    }
