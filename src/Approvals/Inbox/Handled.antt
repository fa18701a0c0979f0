-- ===== src/Approvals/Inbox/Handled.antt =====
-- backend/harness/services/approvals.py: the first reader of a notification stays, and handling it is final.
use agentic_design_harness.Common.{
  eqb, Code, Outcome, ok, guard, require, >>=-eq-ok, guard-eq-ok, ok_inj, ℕ, ◌+◌, ◌≤◌, String, ◌≡◌,
  refl, ap, ◌∙◌, subst, Bool, true, ◌||◌, not, Option, none, some, [], ◌∷◌, ◌++◌, arith, ◌==◌,
}
use agentic_design_harness.Storage.Idempotency.{Sent, committed_result}
use agentic_design_harness.Commands.{Envelope}
use agentic_design_harness.Approvals.Inbox.{
  InboxResult, Tray, is_handled, target_status, get_or, updated_item, inbox_event, move_item,
  sent_update, answer_update, update_inbox_status,
}

-- What an update keeps of a notification.
pub record IsLater (before after : Tray) : Type 0 where
  pub handled_stays : is_handled before.item.status ≡ true → after ≡ before
  pub read_stays : (m : ℕ) → before.item.reading.at ≡ some m → after.item.reading.at ≡ some m
  pub reader_stays :
      (r : String) → before.item.reading.by_id ≡ some r → after.item.reading.by_id ≡ some r
  pub not_back : before.inbox_revision ≤ after.inbox_revision

get_or-some {ℓ} : {A : Type ℓ} (o : Option A) (a d : A) → o ≡ some a → get_or o d ≡ some a
get_or-some none a d h = cc
get_or-some (some b) a d h = h

unchanged-IsLater : (tray : Tray) → IsLater tray tray
unchanged-IsLater tray = record {
  handled_stays = λ _. refl;
  read_stays = λ m h. h;
  reader_stays = λ r h. h;
  not_back = omega arith;
}

move_item-IsLater :
    (sent : Sent) (target : String) (envelope : Envelope) (enforce : Bool) (now : ℕ)
    (tray after : Tray) (r : InboxResult)
    → move_item sent target envelope enforce now tray ≡ ok (r, after)
    → IsLater tray after
unfolding move_item
move_item-IsLater sent target envelope enforce now tray after r h =
    let (status, _, h1) =
      >>=-eq-ok (require (target_status target) Code.invalid_state_transition) _ h in
    let (_, p, h2) =
      >>=-eq-ok (guard (not (is_handled tray.item.status)) Code.invalid_state_transition) _ h1 in
    let (_, _, h3) =
      >>=-eq-ok
        (guard (not enforce || (envelope.actor_type == tray.item.owner)) Code.validation_error) _
        h2 in
    let (_, _, e) =
      >>=-eq-ok (guard (eqb envelope.expected_revision tray.inbox_revision) Code.revision_conflict)
        _ h3 in
    let result : InboxResult = record {
      item = updated_item tray.item status envelope now;
      inbox_revision = tray.inbox_revision + 1;
    } in
    let next : Tray = record tray {
      item = result.item;
      inbox_revision = result.inbox_revision;
      events = tray.events ++ inbox_event sent envelope now result ∷ [];
    } in
    let left : (InboxResult × Tray) = (result, next) in
    let same : left ≡ (r, after) = ok_inj e in
    subst (λ (x : InboxResult × Tray). IsLater tray x.1) same
      (record {
        handled_stays =
            λ t. absurd (ground (arith, t, guard-eq-ok (not (is_handled tray.item.status)) _ p));
        read_stays = λ m k. get_or-some tray.item.reading.at m now k;
        reader_stays = λ s k. get_or-some tray.item.reading.by_id s envelope.actor_id k;
        not_back = omega arith;
      })

answer_update-IsLater :
    (tray after : Tray) (other : Outcome (InboxResult × Tray)) (o : Option InboxResult)
    (r : InboxResult)
    → ((s : InboxResult) (next : Tray) → other ≡ ok (s, next) → IsLater tray next)
    → answer_update tray other o ≡ ok (r, after)
    → IsLater tray after
answer_update-IsLater tray after other none r k h = k r after h
answer_update-IsLater tray after other (some s) r k h =
    let left : (InboxResult × Tray) = (s, tray) in
    let same : left ≡ (r, after) = ok_inj h in
    subst (λ (x : InboxResult × Tray). IsLater tray x.1) same (unchanged-IsLater tray)

module _ (digest : String → String → String) where
  update_inbox_status-IsLater :
      (key target : String) (envelope : Envelope) (enforce : Bool) (now : ℕ) (tray after : Tray)
      (r : InboxResult)
      → update_inbox_status digest key target envelope enforce now tray ≡ ok (r, after)
      → IsLater tray after
  unfolding update_inbox_status
  update_inbox_status-IsLater key target envelope enforce now tray after r h =
      let sent = sent_update digest key target tray in
      let moved = move_item sent target envelope enforce now tray in
      let (o, _, h1) = >>=-eq-ok (committed_result sent tray.events) _ h in
      answer_update-IsLater tray after moved o r
        (λ s next e. move_item-IsLater sent target envelope enforce now tray next s e) h1

  -- The trays that successful updates lead to.
  pub data Updated (start : Tray) : Tray → Type 0 where
    not_updated : Updated start start
    updated :
        {tray after : Tray} (key target : String) (envelope : Envelope) (enforce : Bool) (now : ℕ)
        (r : InboxResult)
        → Updated start tray
        → update_inbox_status digest key target envelope enforce now tray ≡ ok (r, after)
        → Updated start after

  -- After any updates of a notification that succeed, one that was handled is as it was; the time and the
  -- person of the first reading stay; and the revision does not go back.
  pub Updated-IsLater : (start tray : Tray) → Updated start tray → IsLater start tray
  Updated-IsLater start tray not_updated = unchanged-IsLater start
  Updated-IsLater start after (updated {tray = tray} key target envelope enforce now r u h) =
      let ih = Updated-IsLater start tray u in
      let step = update_inbox_status-IsLater key target envelope enforce now tray after r h in
      record {
        handled_stays = λ t.
            let same = ih.handled_stays t in
            step.handled_stays (ap (λ (x : Tray). is_handled x.item.status) same ∙ t) ∙ same;
        read_stays = λ m k. step.read_stays m (ih.read_stays m k);
        reader_stays = λ s k. step.reader_stays s (ih.reader_stays s k);
        not_back = omega (arith, ih.not_back, step.not_back);
      }
