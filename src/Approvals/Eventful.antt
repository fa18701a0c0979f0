-- ===== src/Approvals/Eventful.antt =====
-- backend/harness/services/approvals.py: what the events of a task answer to the decision of an approval.
use agentic_design_harness.Common.{
  is_some, All, Code, ok, err, ok_inj, if-eq-ok, String, ◌≡◌, refl, sym, ap, ◌∙◌, subst, ◌≢◌, inl,
  inr, true, false, ◌||◌, not, Option, none, some, List, [], ◌∷◌, arith, ◌==◌, eq_iff,
}
use agentic_design_harness.Storage.{Event}
use agentic_design_harness.Storage.Idempotency.{Sent, other_request, committed_from}
use agentic_design_harness.Approvals.{Approval, Resolution, Docket, is_pending, sent_decision}

-- What an answer says is what is stored.
abbrev pub IsFinal : Docket → Resolution → Type 0
IsFinal docket r = (r.approval ≡ docket.approval) × (r.approval_revision ≡ docket.approval_revision)

abbrev pub IsFinalOption : Docket → Option Resolution → Type 0
IsFinalOption docket none = Unit
IsFinalOption docket (some r) = IsFinal docket r

other_request-false :
    (sent : Sent) (e : Event Approval Resolution)
    → other_request sent e ≡ false
    → (e.command ≡ sent.command) × (e.request_sha256 ≡ some sent.request_sha256)
other_request-false sent e h =
    let named : (e.command == sent.command) ≡ true = ground (arith, h) in
    ((eq_iff e.command sent.command).0 named, by_digest e.request_sha256 refl)
  where
    by_digest :
        (o : Option String) → e.request_sha256 ≡ o → e.request_sha256 ≡ some sent.request_sha256
    by_digest none p = absurd (ground (arith, h, p))
    by_digest (some sha) p =
        let same : (sha == sent.request_sha256) ≡ true = ground (arith, h, p) in
        p ∙ ap some ((eq_iff sha sent.request_sha256).0 same)

module _ (digest : String → String → String) where
  -- An event that is not the answer to a decision of the approval: its creation, or a commit of any
  -- other command or object.
  abbrev pub IsUnrelated : String → Event Approval Resolution → Type 0
  IsUnrelated approval_id e =
      (decision : String)
      → e.command ≡ "resolve_approval"
      → e.request_sha256 ≡ some (digest approval_id decision)
      → e.command_result ≡ none

  pub data IsEventOf (docket : Docket) (e : Event Approval Resolution) : Type 0 where
    unrelated : IsUnrelated docket.approval.approval_id e → IsEventOf docket e
    answers : (r : Resolution) → e.command_result ≡ some r → IsFinal docket r → IsEventOf docket e

  -- The events of an open approval are unrelated to its decision, and those of a closed one carry what
  -- is stored.
  pub record IsDocket (docket : Docket) : Type 0 where
    pub undecided :
        is_pending docket.approval.status ≡ true
        → All (IsUnrelated docket.approval.approval_id) docket.events
    pub known : All (IsEventOf docket) docket.events

  result-final :
      (docket : Docket) (key decision : String) (e : Event Approval Resolution)
      → IsEventOf docket e
      → other_request (sent_decision digest key decision docket) e ≡ false
      → IsFinalOption docket e.command_result
  result-final docket key decision e (unrelated u) h =
      let (c, d) = other_request-false (sent_decision digest key decision docket) e h in
      subst (IsFinalOption docket) (sym (u decision c d)) tt
  result-final docket key decision e (answers r c f) h = subst (IsFinalOption docket) (sym c) f

  -- What the events answer to a decision.
  pub committed_from-final :
      (docket : Docket) (key decision : String) (found o : Option Resolution)
      (events : List (Event Approval Resolution))
      → All (IsEventOf docket) events
      → IsFinalOption docket found
      → committed_from found (sent_decision digest key decision docket) events ≡ ok o
      → IsFinalOption docket o
  unfolding committed_from
  committed_from-final docket key decision found o [] k f h =
      subst (IsFinalOption docket) (ok_inj h) f
  committed_from-final docket key decision found o (e ∷ events) k f h =
      elim (if-eq-ok (not (is_some e.command_result) || not (e.idempotency_key == key)) _ _ h) [
        | inl (_, h1) ↦ committed_from-final docket key decision found o events k.1 f h1
        | inr (_, h1) ↦
            elim (if-eq-ok (other_request (sent_decision digest key decision docket) e) _ _ h1) [
              | inl (_, h2) ↦ absurd (err_not_ok Code.idempotency_conflict o h2)
              | inr (own, h2) ↦
                  committed_from-final docket key decision e.command_result o events k.1
                    (result-final docket key decision e k.0 own) h2
            ]
      ]
    where
      err_not_ok : (x : Code) (p : Option Resolution) → err x ≢ ok p
      err_not_ok x p q = cc

  -- Unrelated events answer nothing.
  pub committed_from-open :
      (docket : Docket) (key decision : String) (o : Option Resolution)
      (events : List (Event Approval Resolution))
      → All (IsUnrelated docket.approval.approval_id) events
      → committed_from none (sent_decision digest key decision docket) events ≡ ok o
      → none ≡ o
  unfolding committed_from
  committed_from-open docket key decision o [] k h = ok_inj h
  committed_from-open docket key decision o (e ∷ events) k h =
      elim (if-eq-ok (not (is_some e.command_result) || not (e.idempotency_key == key)) _ _ h) [
        | inl (_, h1) ↦ committed_from-open docket key decision o events k.1 h1
        | inr (_, h1) ↦
            elim (if-eq-ok (other_request (sent_decision digest key decision docket) e) _ _ h1) [
              | inl (_, h2) ↦ absurd (err_not_ok Code.idempotency_conflict o h2)
              | inr (own, h2) ↦
                  let sent = sent_decision digest key decision docket in
                  let (c, d) = other_request-false sent e own in
                  committed_from-open docket key decision o events k.1
                    (subst (λ r. committed_from r sent events ≡ ok o) (k.0 decision c d) h2)
            ]
      ]
    where
      err_not_ok : (x : Code) (p : Option Resolution) → err x ≢ ok p
      err_not_ok x p q = cc

  pub All-unrelated :
      (docket : Docket) (events : List (Event Approval Resolution))
      → All (IsUnrelated docket.approval.approval_id) events
      → All (IsEventOf docket) events
  All-unrelated docket [] h = tt
  All-unrelated docket (e ∷ events) h = (unrelated h.0, All-unrelated docket events h.1)
