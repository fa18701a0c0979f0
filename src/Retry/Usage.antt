-- ===== src/Retry/Usage.antt =====
-- backend/harness/services/retry_budget.py: usage that is settled twice, and usage above what was
-- reserved.
use agentic_design_harness.Common.{
  ltb, if◌then◌else◌, Bool-cases, Code, ok, guard, >>=-eq-ok, guard-eq-ok, ok_inj, if-eq-ok, ℕ, ◌+◌,
  ◌<◌, String, ◌≡◌, refl, sym, ◌∙◌, subst, ◌⊎◌, inl, inr, ◌↔◌, Bool, true, false, ◌&&◌, not, Option,
  none, some, arith,
}
use agentic_design_harness.Storage.{Actor}
use agentic_design_harness.Retry.Budget.{reserved, settled, exceeded, Ledger, Attempt, Snapshot}
use agentic_design_harness.Retry.Attempts.{attempt_of, get_attempt}
use agentic_design_harness.Retry.Steps.{to_int, is_reserved, is_settled}
use agentic_design_harness.Retry.Settlement.{
  same_number, may_settle, cost_exceeds, exceeds, settled_ledger, settled_attempt, settle_attempt,
  settle,
}
use agentic_design_harness.Retry.Decisions.{changed-found}
use agentic_design_harness.Retry.Cases.{to_int-ok, get_attempt-ok, get_attempt-id}
use agentic_design_harness.Retry.Releases.{over_or_settled}

same_number_refl : (o : Option ℕ) → same_number o o ≡ true
same_number_refl none = refl
same_number_refl (some n) = ground arith

-- What a settlement returns has the usage it was asked for.
record AsAsked (b : Attempt) (actual : ℕ) (cost : Option ℕ) (s : Snapshot) (a : Attempt)
    : Type 0 where
  found : attempt_of b.attempt_id s.attempts ≡ some a
  same_agent : a.agent_type ≡ b.agent_type
  done : is_settled a.status ≡ true
  tokens : same_number a.actual_tokens (some actual) ≡ true
  price : same_number a.actual_cost_micros cost ≡ true

settle_attempt-AsAsked :
    (s s' : Snapshot) (b a : Attempt) (actual : ℕ) (cost : Option ℕ) (now : ℕ)
    → attempt_of b.attempt_id s.attempts ≡ some b
    → settle_attempt s b actual cost now ≡ ok (s', a)
    → AsAsked b actual cost s' a
unfolding settle_attempt settled_attempt
settle_attempt-AsAsked s s' b a actual cost now found e =
    elim (if-eq-ok (is_settled b.status) _ _ e) [
      | inl (done, again) ↦
          elim (if-eq-ok
            (same_number b.actual_tokens (some actual) && same_number b.actual_cost_micros cost) _ _
            again) [
              | inl (alike, same) ↦
                  subst (λ p. AsAsked b actual cost p.0 p.1) (ok_inj same)
                    (record {
                      found = found;
                      same_agent = refl;
                      done = done;
                      tokens = ground (arith, alike);
                      price = ground (arith, alike);
                    })
              | inr (_, differs) ↦ cc
            ]
      | inr (_, fresh) ↦ elim (if-eq-ok (not (is_reserved b.status)) _ _ fresh) [
        | inl (_, refused) ↦ cc
        | inr (held, goes) ↦
            let (tokens, known, e3) = >>=-eq-ok (to_int b.reserved_tokens) _ goes in
            let next = settled_attempt b tokens actual cost now in
            let ledger =
              settled_ledger s.retry_budget_ledger tokens b.reserved_cost_micros actual cost in
            subst (λ p. AsAsked b actual cost p.0 p.1) (ok_inj e3)
              (record {
                found = changed-found s b next ledger now found;
                same_agent = refl;
                done = over_or_settled (exceeds tokens b.reserved_cost_micros actual cost);
                tokens = same_number_refl (some actual);
                price = same_number_refl cost;
              })
      ]
    ]

-- In the snapshot that a settlement leaves, the same settlement, at any time, succeeds with the same
-- attempt and leaves the snapshot as it is.
pub settle-twice :
    (s s' : Snapshot) (id : String) (a : Attempt) (actual : ℕ) (cost : Option ℕ) (actor : Actor)
    (now later : ℕ)
    → settle s id actual cost actor now ≡ ok (s', a)
    → settle s' id actual cost actor later ≡ ok (s', a)
unfolding settle settle_attempt get_attempt
settle-twice s s' id a actual cost actor now later e =
    let (b, there, e1) = >>=-eq-ok (get_attempt s id) _ e in
    let (_, allowed, e2) =
      >>=-eq-ok (guard (may_settle actor b.agent_type) Code.validation_error) _ e1 in
    let found = get_attempt-ok s id b there in
    let r = settle_attempt-AsAsked s s' b a actual cost now found e2 in
    let named = get_attempt-id s id b there in
    let after : attempt_of id s'.attempts ≡ some a =
      subst (λ x. attempt_of x s'.attempts ≡ some a) named r.found in
    let may : may_settle actor a.agent_type ≡ true =
      subst (λ x. may_settle actor x ≡ true) (sym r.same_agent) (guard-eq-ok _ _ allowed) in
    rw (after, may, r.done, r.tokens, r.price) refl

-- More tokens than were reserved, or a known cost above a known reservation.
pub data Overspends (reserved_tokens actual : ℕ) (reserved_cost cost : Option ℕ) : Type 0 where
  in_tokens : reserved_tokens < actual → Overspends reserved_tokens actual reserved_cost cost
  in_cost :
      (m n : ℕ)
      → reserved_cost ≡ some m
      → cost ≡ some n
      → m < n
      → Overspends reserved_tokens actual reserved_cost cost

exceeds_iff :
    (reserved_tokens actual : ℕ) (reserved_cost cost : Option ℕ)
    → (exceeds reserved_tokens reserved_cost actual cost ≡ true)
      ↔ Overspends reserved_tokens actual reserved_cost cost
unfolding exceeds cost_exceeds
exceeds_iff reserved_tokens actual reserved_cost cost =
    (exceeding reserved_cost cost, spent reserved_cost cost)
  where
    exceeding :
        (m n : Option ℕ)
        → exceeds reserved_tokens m actual n ≡ true
        → Overspends reserved_tokens actual m n
    exceeding none n h = Overspends.in_tokens (ground arith)
    exceeding (some m) none h = Overspends.in_tokens (ground arith)
    exceeding (some m) (some n) h = elim (Bool-cases (ltb m n)) [
      | inl t ↦ Overspends.in_cost m n refl refl (ground (arith, t))
      | inr f ↦ Overspends.in_tokens (ground (arith, f))
    ]

    spent :
        (m n : Option ℕ)
        → Overspends reserved_tokens actual m n
        → exceeds reserved_tokens m actual n ≡ true
    spent m n (Overspends.in_tokens h) = ground (arith, h)
    spent m n (Overspends.in_cost i j e f h) = rw (e, f) (ground (arith, h))

-- What a settlement of `attempt` makes of it and of its ledger.
pub record IsMeasured (before after : Ledger) (attempt settled_one : Attempt) (held actual : ℕ)
    (cost : Option ℕ) : Type 0 where
  pub marked :
      (settled_one.status ≡ exceeded) ↔ Overspends held actual attempt.reserved_cost_micros cost
  pub freezes :
      (after.frozen ≡ true)
      ↔ ((before.frozen ≡ true) ⊎ Overspends held actual attempt.reserved_cost_micros cost)
  pub counted : after.retry_tokens_settled ≡ before.retry_tokens_settled + actual

marked_iff : (over : Bool) → ((if over then exceeded else settled) ≡ exceeded) ↔ (over ≡ true)
marked_iff true = (λ h. refl, λ h. refl)
marked_iff false = (λ h. cc, λ h. cc)

frozen_iff :
    (over frozen : Bool)
    → ((if over then true else frozen) ≡ true) ↔ ((frozen ≡ true) ⊎ (over ≡ true))
frozen_iff true frozen = (λ h. inr refl, λ h. refl)
frozen_iff false frozen = (λ h. inl h, λ h. elim h [ inl f ↦ f | inr e ↦ cc ])

settled-IsMeasured :
    (before : Ledger) (b : Attempt) (held actual : ℕ) (cost : Option ℕ) (now : ℕ)
    → IsMeasured before
        (settled_ledger before held b.reserved_cost_micros actual cost)
        b
        (settled_attempt b held actual cost now)
        held
        actual
        cost
unfolding settled_ledger settled_attempt
settled-IsMeasured before b held actual cost now =
    let over = exceeds held b.reserved_cost_micros actual cost in
    let spec = exceeds_iff held actual b.reserved_cost_micros cost in
    record {
      marked = (λ h. spec.0 ((marked_iff over).0 h), λ o. (marked_iff over).1 (spec.1 o));
      freezes = (
        λ h. elim ((frozen_iff over before.frozen).0 h) [ inl f ↦ inl f | inr e ↦ inr (spec.0 e) ],
        λ h. (frozen_iff over before.frozen).1 (elim h [ inl f ↦ inl f | inr o ↦ inr (spec.1 o) ]),
      );
      counted = refl;
    }

settle_attempt-IsMeasured :
    (s s' : Snapshot) (b a : Attempt) (held actual : ℕ) (cost : Option ℕ) (now : ℕ)
    → b.status ≡ reserved
    → b.reserved_tokens ≡ some held
    → settle_attempt s b actual cost now ≡ ok (s', a)
    → IsMeasured s.retry_budget_ledger s'.retry_budget_ledger b a held actual cost
unfolding settle_attempt
settle_attempt-IsMeasured s s' b a held actual cost now st tk e =
    elim (if-eq-ok (is_settled b.status) _ _ e) [
      | inl (done, again) ↦ absurd (ground (arith, done, st))
      | inr (_, fresh) ↦ elim (if-eq-ok (not (is_reserved b.status)) _ _ fresh) [
        | inl (_, refused) ↦ cc
        | inr (_, goes) ↦
            let (tokens, known, e3) = >>=-eq-ok (to_int b.reserved_tokens) _ goes in
            let same : tokens ≡ held =
              ground (arith, to_int-ok b.reserved_tokens tokens known, tk) in
            subst
              (λ p. IsMeasured s.retry_budget_ledger p.0.retry_budget_ledger b p.1 held actual cost)
              (ok_inj e3)
              (subst
                (λ n.
                  IsMeasured s.retry_budget_ledger
                    (settled_ledger s.retry_budget_ledger n b.reserved_cost_micros actual cost) b
                    (settled_attempt b n actual cost now) held actual cost)
                (sym same) (settled-IsMeasured s.retry_budget_ledger b held actual cost now))
      ]
    ]

-- A settlement of a reserved attempt marks it as exceeded exactly when it used more tokens than were
-- reserved, or its known cost is above a known reserved cost; the ledger is frozen afterwards exactly
-- when it was before or the attempt is one of these; and the tokens used are counted.
pub settle-IsMeasured :
    (s s' : Snapshot) (id : String) (b a : Attempt) (held actual : ℕ) (cost : Option ℕ)
    (actor : Actor) (now : ℕ)
    → get_attempt s id ≡ ok b
    → b.status ≡ reserved
    → b.reserved_tokens ≡ some held
    → settle s id actual cost actor now ≡ ok (s', a)
    → IsMeasured s.retry_budget_ledger s'.retry_budget_ledger b a held actual cost
unfolding settle
settle-IsMeasured s s' id b a held actual cost actor now there st tk e =
    let (b', there', e1) = >>=-eq-ok (get_attempt s id) _ e in
    let (_, allowed, e2) =
      >>=-eq-ok (guard (may_settle actor b'.agent_type) Code.validation_error) _ e1 in
    let same : b' ≡ b = ok_inj (sym there' ∙ there) in
    settle_attempt-IsMeasured s s' b a held actual cost now st tk
      (subst (λ x. settle_attempt s x actual cost now ≡ ok (s', a)) same e2)
