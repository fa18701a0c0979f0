-- ===== src/Retry/Room.antt =====
-- backend/harness/services/retry_budget.py: the gates of a retry are open exactly where the budget
-- has room for it.
use agentic_design_harness.Common.{
  ℕ, ◌+◌, ◌≤◌, String, ◌≡◌, refl, ap, subst, ◌≢◌, ◌↔◌, true, Option, none, some, List, [], ◌∷◌,
  ◌++◌, arith, eq_iff,
}
use agentic_design_harness.Retry.Budget.{Policy, Ledger, Snapshot}
use agentic_design_harness.Retry.Gates.{
  group_count, count_gate, token_gate, same_text, known_cost_gate, limited_cost_gate, cost_gate,
  frozen_gate, gates, HasRoom,
}

append-nil_left : {A : Type 0} (xs ys : List A) → xs ++ ys ≡ [] → xs ≡ []
append-nil_left [] ys h = refl
append-nil_left (x ∷ xs) ys h = cc

append-nil_right : {A : Type 0} (xs ys : List A) → xs ++ ys ≡ [] → ys ≡ []
append-nil_right [] ys h = h
append-nil_right (x ∷ xs) ys h = cc

same_text-eq : (s t : Option String) → same_text s t ≡ true → s ≡ t
same_text-eq none none h = refl
same_text-eq (some s) (some t) h = ap some ((eq_iff s t).0 h)
same_text-eq none (some t) h = cc
same_text-eq (some s) none h = cc

same_text_refl : (s : Option String) → same_text s s ≡ true
same_text_refl none = refl
same_text_refl (some s) = (eq_iff s s).1 refl

CostRoom : Ledger → Policy → ℕ → Option ℕ → Option String → Type 0
CostRoom ledger policy limit estimate price =
    (used estimated : ℕ) × (ledger.retry_cost_micros_settled ≡ some used)
    × (estimate ≡ some estimated)
    × (price ≢ none)
    × (price ≡ policy.price_catalog_revision)
    × (used + ledger.retry_cost_micros_reserved + estimated ≤ limit)

known_cost_gate-open :
    (ledger : Ledger) (limit e : ℕ) (settled : Option ℕ)
    → known_cost_gate ledger limit e settled ≡ []
    → (used : ℕ) × (settled ≡ some used) × (used + ledger.retry_cost_micros_reserved + e ≤ limit)
unfolding known_cost_gate
known_cost_gate-open ledger limit e none h = cc
known_cost_gate-open ledger limit e (some used) h = (used, refl, ground arith)

limited_cost_gate-open :
    (ledger : Ledger) (policy : Policy) (limit : ℕ) (estimate : Option ℕ) (price : Option String)
    → limited_cost_gate ledger policy limit estimate price ≡ []
    → CostRoom ledger policy limit estimate price
unfolding limited_cost_gate CostRoom
limited_cost_gate-open ledger policy limit none price h = cc
limited_cost_gate-open ledger policy limit (some e) none h = cc
limited_cost_gate-open ledger policy limit (some e) (some p) h =
    let priced : same_text (some p) policy.price_catalog_revision ≡ true = ground arith in
    let (used, known, fits) =
      known_cost_gate-open ledger limit e ledger.retry_cost_micros_settled (ground arith) in
    (
      used,
      e,
      known,
      refl,
      λ q. cc,
      same_text-eq (some p) policy.price_catalog_revision priced,
      fits,
    )

limited_cost_gate-open_of :
    (ledger : Ledger) (policy : Policy) (limit : ℕ) (estimate : Option ℕ) (price : Option String)
    → CostRoom ledger policy limit estimate price
    → limited_cost_gate ledger policy limit estimate price ≡ []
unfolding limited_cost_gate known_cost_gate CostRoom
limited_cost_gate-open_of ledger policy limit estimate none
      (used, e, known, same, priced, catalog, fits) =
    absurd (priced refl)
limited_cost_gate-open_of ledger policy limit estimate (some p)
      (used, e, known, same, priced, catalog, fits) =
    rw (same, known) (rw (← catalog) (ground (arith, eq_iff p p)))

module _ (snapshot : Snapshot) (policy : Policy) (group : String) (requested estimate : Option ℕ)
    (price : Option String) where
  abbrev ledger : Ledger
  ledger = snapshot.retry_budget_ledger

  -- The four tests one by one.
  record Open : Type 0 where
    of_count : count_gate (group_count group snapshot.attempts) policy ≡ []
    of_tokens : token_gate ledger policy requested ≡ []
    of_cost : cost_gate ledger policy policy.max_auto_retry_cost_micros estimate price ≡ []
    of_ledger : frozen_gate ledger ≡ []

  gates-Open : gates snapshot policy group requested estimate price ≡ [] → Open
  unfolding gates
  gates-Open h =
      let a = append-nil_right _ _ h in
      let b = append-nil_right _ _ a in
      record {
        of_count = append-nil_left _ _ h;
        of_tokens = append-nil_left _ _ a;
        of_cost = append-nil_left _ _ b;
        of_ledger = append-nil_right _ _ b;
      }

  tokens_open :
      (r : Option ℕ)
      → token_gate ledger policy r ≡ []
      → (n : ℕ) × (r ≡ some n)
        × (ledger.retry_tokens_settled + ledger.retry_tokens_reserved + n
            ≤ policy.max_auto_retry_tokens_task)
  unfolding token_gate
  tokens_open none h = cc
  tokens_open (some n) h = (n, refl, ground arith)

  cost_open :
      (o : Option ℕ) (limit : ℕ)
      → cost_gate ledger policy o estimate price ≡ []
      → o ≡ some limit
      → CostRoom ledger policy limit estimate price
  unfolding cost_gate
  cost_open none limit h e = cc
  cost_open (some m) limit h e =
      let same : m ≡ limit = ground arith in
      subst (λ x. CostRoom ledger policy x estimate price) same
        (limited_cost_gate-open ledger policy m estimate price h)

  cost_open_of :
      (o : Option ℕ)
      → ((limit : ℕ) → o ≡ some limit → CostRoom ledger policy limit estimate price)
      → cost_gate ledger policy o estimate price ≡ []
  unfolding cost_gate
  cost_open_of none h = refl
  cost_open_of (some m) h = limited_cost_gate-open_of ledger policy m estimate price (h m refl)

  room : Open → HasRoom snapshot policy group requested estimate price
  unfolding count_gate frozen_gate CostRoom
  room o =
      let (n, known, fits) = tokens_open requested o.of_tokens in
      record {
        tokens = n;
        tokens_known = known;
        retries_left = ground (arith, o.of_count);
        tokens_left = fits;
        cost_left = λ limit e. cost_open policy.max_auto_retry_cost_micros limit o.of_cost e;
        not_frozen = ground (arith, o.of_ledger);
      }

  opened :
      HasRoom snapshot policy group requested estimate price
      → gates snapshot policy group requested estimate price ≡ []
  unfolding gates count_gate token_gate frozen_gate CostRoom
  opened r =
      let t : token_gate ledger policy requested ≡ [] =
        rw (r.tokens_known) (ground (arith, r.tokens_left)) in
      let c : count_gate (group_count group snapshot.attempts) policy ≡ [] =
        ground (arith, r.retries_left) in
      let m : cost_gate ledger policy policy.max_auto_retry_cost_micros estimate price ≡ [] =
        cost_open_of policy.max_auto_retry_cost_micros (λ limit e. r.cost_left limit e) in
      let f : frozen_gate ledger ≡ [] = ground (arith, r.not_frozen) in rw (c, t, m, f) refl

  -- The gates of a retry are all open exactly when the amount of tokens is known and fits the
  -- task's limit beside what is settled and reserved, the group has a retry left, the cost, where
  -- it is limited, is known at the policy's price catalog and fits, and the ledger is not frozen.
  pub gates-HasRoom :
      (gates snapshot policy group requested estimate price ≡ [])
      ↔ HasRoom snapshot policy group requested estimate price
  gates-HasRoom = (λ h. room (gates-Open h), opened)
