-- ===== src/Retry/Replay.antt =====
-- backend/harness/services/retry_budget.py: a committed command is answered again with its result.
use agentic_design_harness.Common.{
  eqb, Outcome, ok, String, ◌≡◌, refl, false, Option, none, some, List, [], ◌∷◌, ◌++◌, arith,
  eq_iff,
}
use agentic_design_harness.Retry.Budget.{Snapshot}
use agentic_design_harness.Retry.Service.{
  Reply, Receipt, Desk, lookup_from, lookup_committed, commit_reply, run_once,
}

lookup_from-append :
    (found : Option Reply) (key command sha : String) (reply : Reply) (log : List Receipt)
    (o : Option Reply)
    → lookup_from found key command sha log ≡ ok o
    → lookup_from found key command sha (
        log
        ++ record { idempotency_key = key; command = command; request_sha256 = sha; reply = reply }
          ∷ [])
      ≡ ok (some reply)
unfolding lookup_from
lookup_from-append found key command sha reply [] o h =
    rw ((eq_iff key key).1 refl, (eq_iff command command).1 refl, (eq_iff sha sha).1 refl) refl
lookup_from-append found key command sha reply (r ∷ rest) o h = ground (
  arith,
  lookup_from-append found key command sha reply rest o,
  lookup_from-append (some r.reply) key command sha reply rest o,
)

-- A command that has no receipt yet, and whose body succeeds and moves the revision, is answered
-- with the reply of its body, and its result is the budget. Sent again next with its key and the
-- digest of its request, it is answered with the same reply and changes nothing, whatever its body
-- would do by then.
pub run_once-replay :
    (key command sha : String) (body again : Snapshot → Outcome (Snapshot × Reply)) (desk : Desk)
    (next : Snapshot) (reply : Reply)
    → lookup_committed key command sha desk.receipts ≡ ok none
    → body desk.budget ≡ ok (next, reply)
    → eqb next.revision desk.budget.revision ≡ false
    → let after = (run_once key command sha body desk).0 in
      ((run_once key command sha body desk).1 ≡ ok reply)
      × (after.budget ≡ next)
      × (run_once key command sha again after ≡ (after, ok reply))
unfolding run_once lookup_committed commit_reply
run_once-replay key command sha body again desk next reply h b d =
    let l = lookup_from-append none key command sha reply desk.receipts none h in
    rw (h, b, d, l) (refl, refl, refl)
