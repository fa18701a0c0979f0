-- ===== src/Approvals/Decided.antt =====
-- backend/harness/services/approvals.py: an approval is decided once.
use agentic_design_harness.Common.{
  eqb, Bool-cases, All, All-append, Code, ok, guard, require, >>=-eq-ok, guard-eq-ok, ok_inj, ℕ,
  ◌+◌, String, ◌≡◌, refl, sym, ap, ◌∙◌, subst, ◌≢◌, ◌⊎◌, inl, inr, true, false, Option, none, some,
  List, [], ◌∷◌, ◌++◌, arith, ◌==◌,
}
use agentic_design_harness.Storage.{Event}
use agentic_design_harness.Storage.Idempotency.{Sent, committed_result}
use agentic_design_harness.Commands.{Envelope}
use agentic_design_harness.Approvals.{
  ApprovalStatus, pending_approval, approved, rejected, Approval, Resolution, Docket, is_pending,
  decided_status, resolved, resolution_event, decide, acknowledgement, acknowledged,
  acknowledge_external, sent_decision, answer_or, commit_resolution,
}
use agentic_design_harness.Approvals.Eventful.{
  IsFinal, IsFinalOption, IsUnrelated, IsEventOf, unrelated, answers, IsDocket,
  committed_from-final, committed_from-open, All-unrelated,
}

decided_status-closed :
    (decision : String) (status : ApprovalStatus)
    → decided_status decision ≡ some status
    → is_pending status ≡ false
decided_status-closed decision pending_approval h = ground (arith, h)
decided_status-closed decision approved h = refl
decided_status-closed decision rejected h = refl

module _ (digest : String → String → String) where
  -- What a decision leaves behind.
  record IsAnswer (docket : Docket) (r : Resolution) (after : Docket) : Type 0 where
    is_docket : IsDocket digest after
    closed : is_pending after.approval.status ≡ false
    is_final : IsFinal after r
    kept : is_pending docket.approval.status ≡ false → after ≡ docket

  require-some :
      (o : Option ApprovalStatus) (a : ApprovalStatus)
      → require o Code.validation_error ≡ ok a
      → o ≡ some a
  require-some none a h = cc
  require-some (some b) a h = ap some (ok_inj h)

  decide-IsAnswer :
      (sent : Sent) (decision : String) (envelope : Envelope) (now : ℕ) (docket after : Docket)
      (r : Resolution)
      → IsDocket digest docket
      → decide sent decision envelope now docket ≡ ok (r, after)
      → IsAnswer docket r after
  unfolding decide
  decide-IsAnswer sent decision envelope now docket after r d h =
      let (status, s, h1) =
        >>=-eq-ok (require (decided_status decision) Code.validation_error) _ h in
      let (_, g, h2) =
        >>=-eq-ok (guard (is_pending docket.approval.status) Code.invalid_state_transition) _ h1 in
      let (_, _, h3) =
        >>=-eq-ok (guard (envelope.actor_type == docket.approval.owner) Code.validation_error) _
          h2 in
      let (_, _, e) =
        >>=-eq-ok
          (guard (eqb envelope.expected_revision docket.approval_revision) Code.revision_conflict) _
          h3 in
      let p = guard-eq-ok (is_pending docket.approval.status) _ g in
      let updated : Approval = resolved docket.approval status envelope now in
      let result : Resolution = record {
        approval = updated;
        approval_revision = docket.approval_revision + 1;
      } in
      let event = resolution_event sent envelope now docket.approval result in
      let next : Docket = record {
        approval = updated;
        approval_revision = docket.approval_revision + 1;
        events = docket.events ++ event ∷ [];
      } in
      let left : (Resolution × Docket) = (result, next) in
      let same : left ≡ (r, after) = ok_inj e in
      let shut : is_pending status ≡ false =
        decided_status-closed decision status (require-some (decided_status decision) status s) in
      let known_next : All (IsEventOf digest next) (docket.events ++ event ∷ []) =
        All-append (IsEventOf digest next) docket.events (event ∷ [])
          (All-unrelated digest next docket.events (d.undecided p))
          (answers result refl (refl, refl), tt) in
      subst (λ (x : Resolution × Docket). IsAnswer docket x.0 x.1) same
        (record {
          is_docket = record {
            undecided = λ q. absurd (ground (arith, shut, q));
            known = known_next;
          };
          closed = shut;
          is_final = (refl, refl);
          kept = λ f. absurd (ground (arith, f, p));
        })

  -- A closed approval is not decided again.
  decide-closed :
      (sent : Sent) (decision : String) (envelope : Envelope) (now : ℕ) (docket after : Docket)
      (r : Resolution)
      → is_pending docket.approval.status ≡ false
      → decide sent decision envelope now docket ≢ ok (r, after)
  unfolding decide
  decide-closed sent decision envelope now docket after r f h =
      let (status, _, h1) =
        >>=-eq-ok (require (decided_status decision) Code.validation_error) _ h in
      let (_, p, _) =
        >>=-eq-ok (guard (is_pending docket.approval.status) Code.invalid_state_transition) _ h1 in
      ground (arith, f, guard-eq-ok (is_pending docket.approval.status) _ p)

  commit_resolution-IsAnswer :
      (key decision : String) (envelope : Envelope) (now : ℕ) (docket after : Docket)
      (r : Resolution)
      → IsDocket digest docket
      → commit_resolution digest key decision envelope now docket ≡ ok (r, after)
      → IsAnswer docket r after
  unfolding commit_resolution committed_result
  commit_resolution-IsAnswer key decision envelope now docket after r d h =
      let sent = sent_decision digest key decision docket in
      let (o, c, h1) = >>=-eq-ok (committed_result sent docket.events) _ h in
      elim (Bool-cases (is_pending docket.approval.status)) [
        | inl p ↦
            let nothing : none ≡ o =
              committed_from-open digest docket key decision o docket.events (d.undecided p) c in
            decide-IsAnswer sent decision envelope now docket after r d
              (ap (answer_or docket (decide sent decision envelope now docket)) nothing ∙ h1)
        | inr f ↦
            closed_answer o f
              (committed_from-final digest docket key decision none o docket.events d.known tt c) h1
      ]
    where
      closed_answer :
          (o : Option Resolution)
          → is_pending docket.approval.status ≡ false
          → IsFinalOption docket o
          → answer_or docket
              (decide (sent_decision digest key decision docket) decision envelope now docket)
              o
            ≡ ok (r, after)
          → IsAnswer docket r after
      closed_answer none f n e = absurd (
          decide-closed (sent_decision digest key decision docket) decision envelope now docket
            after r f e)
      closed_answer (some s) f n e =
          let left : (Resolution × Docket) = (s, docket) in
          let same : left ≡ (r, after) = ok_inj e in
          subst (λ (x : Resolution × Docket). IsAnswer docket x.0 x.1) same
            (record { is_docket = d; closed = f; is_final = n; kept = λ _. refl })

  -- The answers that the successful decisions of an approval got, the last one first, while other
  -- commands of the task commit events of their own.
  pub data Answers (start : Docket) : List Resolution → Docket → Type 0 where
    unanswered : Answers start [] start
    answered :
        {rs : List Resolution} {docket after : Docket} (key decision : String) (envelope : Envelope)
        (now : ℕ) (r : Resolution)
        → Answers start rs docket
        → commit_resolution digest key decision envelope now docket ≡ ok (r, after)
        → Answers start (r ∷ rs) after
    interleaved :
        {rs : List Resolution} {docket : Docket} (e : Event Approval Resolution)
        → Answers start rs docket
        → IsUnrelated digest docket.approval.approval_id e
        → Answers start rs (record docket { events = docket.events ++ e ∷ [] })
    outside :
        {rs : List Resolution} {docket : Docket} (actor_id : String) (now : ℕ)
        → Answers start rs docket
        → Answers start rs (acknowledge_external actor_id now docket)

  -- What holds of the answers so far.
  record IsSettled (rs : List Resolution) (docket : Docket) : Type 0 where
    is_docket : IsDocket digest docket
    one_answer : All (IsFinal docket) rs
    open_or_closed : (rs ≡ []) ⊎ (is_pending docket.approval.status ≡ false)

  IsEventOf-longer :
      (docket : Docket) (more xs : List (Event Approval Resolution))
      → All (IsEventOf digest docket) xs
      → All (IsEventOf digest (record docket { events = more })) xs
  IsEventOf-longer docket more [] h = tt
  IsEventOf-longer docket more (x ∷ xs) (unrelated u, h) =
      (unrelated u, IsEventOf-longer docket more xs h)
  IsEventOf-longer docket more (x ∷ xs) (answers r c f, h) =
      (answers r c f, IsEventOf-longer docket more xs h)

  All-IsFinal :
      (docket : Docket) (more : List (Event Approval Resolution)) (rs : List Resolution)
      → All (IsFinal docket) rs
      → All (IsFinal (record docket { events = more })) rs
  All-IsFinal docket more [] h = tt
  All-IsFinal docket more (r ∷ rs) h = (h.0, All-IsFinal docket more rs h.1)

  -- An acknowledgement closes an approval that has no answer.
  acknowledged-IsSettled :
      (rs : List Resolution) (docket : Docket) (actor_id : String) (now : ℕ)
      → IsSettled rs docket
      → IsSettled rs (acknowledge_external actor_id now docket)
  unfolding acknowledge_external
  acknowledged-IsSettled rs docket actor_id now v =
      elim (Bool-cases (is_pending docket.approval.status)) [
        | inr f ↦ rw f v
        | inl p ↦
            let closed = acknowledged docket.approval actor_id now in
            let event = acknowledgement actor_id now closed (docket.approval_revision + 1) in
            let next : Docket = record {
              approval = closed;
              approval_revision = docket.approval_revision + 1;
              events = docket.events ++ event ∷ [];
            } in
            let unanswered_yet : rs ≡ [] = elim v.open_or_closed [
              | inl e ↦ e
              | inr f ↦ absurd (ground (arith, f, p))
            ] in
            let settled : IsSettled rs next = record {
              is_docket = record {
                undecided = λ q. cc;
                known =
                    All-append (IsEventOf digest next) docket.events (event ∷ [])
                      (All-unrelated digest next docket.events (v.is_docket.undecided p))
                      (unrelated (λ decision c s. refl), tt);
              };
              one_answer = subst (All (IsFinal next)) (sym unanswered_yet) tt;
              open_or_closed = inl unanswered_yet;
            } in
            rw p settled
      ]

  Answers-IsSettled :
      (start docket : Docket) (rs : List Resolution)
      → IsDocket digest start
      → Answers start rs docket
      → IsSettled rs docket
  Answers-IsSettled start docket rs d unanswered = record {
    is_docket = d;
    one_answer = tt;
    open_or_closed = inl refl;
  }
  Answers-IsSettled start after rs d
        (answered {rs = earlier} {docket = docket} key decision envelope now r h k) =
      let ih = Answers-IsSettled start docket earlier d h in
      let a = commit_resolution-IsAnswer key decision envelope now docket after r ih.is_docket k in
      record {
        is_docket = a.is_docket;
        one_answer = (
          a.is_final,
          elim ih.open_or_closed [
            | inl e ↦ subst (All (IsFinal after)) (sym e) tt
            | inr c ↦ subst (λ (x : Docket). All (IsFinal x) earlier) (sym (a.kept c)) ih.one_answer
          ],
        );
        open_or_closed = inr a.closed;
      }
  Answers-IsSettled start after rs d (interleaved {docket = docket} e h u) =
      let ih = Answers-IsSettled start docket rs d h in
      let more = docket.events ++ e ∷ [] in
      let next : Docket = record docket { events = more } in
      record {
        is_docket = record {
          undecided = λ p.
              All-append (IsUnrelated digest docket.approval.approval_id) docket.events (e ∷ [])
                (ih.is_docket.undecided p) (u, tt);
          known =
              All-append (IsEventOf digest next) docket.events (e ∷ [])
                (IsEventOf-longer docket more docket.events ih.is_docket.known) (unrelated u, tt);
        };
        one_answer = All-IsFinal docket more rs ih.one_answer;
        open_or_closed = ih.open_or_closed;
      }
  Answers-IsSettled start after rs d (outside {docket = docket} actor_id now h) =
      acknowledged-IsSettled rs docket actor_id now (Answers-IsSettled start docket rs d h)

  -- However many decisions of a pending approval are sent, in whatever order, under whatever keys and by
  -- whomever, whatever other commands of its task commit in between, and also where an adapter
  -- acknowledges the approval outside of these decisions: all decisions that are answered
  -- get one and the same resolution, which is what is stored. The events of the task before the first
  -- decision, such as that of the approval's creation, are none that answer a decision of this approval.
  pub Answers-IsFinal :
      (start docket : Docket) (rs : List Resolution)
      → is_pending start.approval.status ≡ true
      → All (IsUnrelated digest start.approval.approval_id) start.events
      → Answers start rs docket
      → All (IsFinal docket) rs
  Answers-IsFinal start docket rs p u h =
      (Answers-IsSettled start docket rs
        (record { undecided = λ _. u; known = All-unrelated digest start start.events u })
        h).one_answer
