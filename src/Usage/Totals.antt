-- ===== src/Usage/Totals.antt =====
-- backend/harness/services/usage.py: the rows of a summary add up to its totals.
use mathlib.Core.List.{map-map}
use agentic_design_harness.Common.{
  if◌then◌else◌, Bool-cases, length, keep, sum_by, All, sum_by-append, Dict, ℕ, ◌+◌, ◌≤◌, String,
  ◌≡◌, refl, sym, ap, ◌∙◌, inl, inr, Bool, Option, List, [], ◌∷◌, map, arith, ◌==◌,
}
use agentic_design_harness.Usage.{UsageEvent, Reporter, Meter}
use agentic_design_harness.Usage.Ledger.{IsAccounted, IsLedger}
use agentic_design_harness.Usage.Summary.{
  Tokens, token_totals, is_priced, micros, add_to_group, group_onto, Row, HourRow, Summary,
  insert_sorted, sort_items, cost_summary, row_of, hour_row_of, asked_for, summary,
}

-- The amount of a group of events.
abbrev grouped : (UsageEvent → ℕ) → String × List UsageEvent → ℕ
grouped f g = sum_by f g.1

module _ (f : UsageEvent → ℕ) where
  sum-add_to_group :
      (k : String) (e : UsageEvent) (d : Dict (List UsageEvent))
      → sum_by (grouped f) (add_to_group k e d) ≡ sum_by (grouped f) d + f e
  unfolding add_to_group
  sum-add_to_group k e [] = omega arith
  sum-add_to_group k e ((j, g) ∷ d) = elim (Bool-cases (k == j)) [
    | inl t ↦ rw t (omega (arith, sum_by-append f g (e ∷ [])))
    | inr n ↦ rw n (omega (arith, sum-add_to_group k e d))
  ]

  sum-group_onto :
      (key : UsageEvent → String) (d : Dict (List UsageEvent)) (es : List UsageEvent)
      → sum_by (grouped f) (group_onto key d es) ≡ sum_by (grouped f) d + sum_by f es
  unfolding group_onto
  sum-group_onto key d [] = omega arith
  sum-group_onto key d (e ∷ es) =
      omega (arith, sum-group_onto key (add_to_group (key e) e d) es, sum-add_to_group (key e) e d)

  sum_by-keep :
      (p : UsageEvent → Bool) (es : List UsageEvent)
      → sum_by f (keep p es) ≡ sum_by (λ e. if p e then f e else 0) es
  sum_by-keep p [] = refl
  sum_by-keep p (e ∷ es) = ground (arith, sum_by-keep p es)

module _ {V : Type 0} (before : String → String → Bool) (f : String × V → ℕ) where
  sum-insert_sorted :
      (x : String × V) (d : Dict V) → sum_by f (insert_sorted before x d) ≡ f x + sum_by f d
  unfolding insert_sorted
  sum-insert_sorted x [] = refl
  sum-insert_sorted x (y ∷ d) = elim (Bool-cases (before y.0 x.0)) [
    | inl t ↦ rw t (omega (arith, sum-insert_sorted x d))
    | inr n ↦ rw n refl
  ]

  sum-sort_items : (d : Dict V) → sum_by f (sort_items before d) ≡ sum_by f d
  unfolding sort_items
  sum-sort_items [] = refl
  sum-sort_items (x ∷ d) =
      omega (arith, sum-insert_sorted x (sort_items before d), sum-sort_items d)

sum_by-map :
    {A B : Type 0} (f : B → ℕ) (g : A → B) (xs : List A)
    → sum_by f (map g xs) ≡ sum_by (λ x. f (g x)) xs
sum_by-map f g [] = refl
sum_by-map f g (x ∷ xs) = omega (arith, sum_by-map f g xs)

-- The sum over the sorted groups of events is the sum over the events.
sum-groups :
    (before : String → String → Bool) (f : UsageEvent → ℕ) (key : UsageEvent → String)
    (es : List UsageEvent)
    → sum_by (grouped f) (sort_items before (group_onto key [] es)) ≡ sum_by f es
sum-groups before f key es =
    omega
      (arith, sum-sort_items before (grouped f) (group_onto key [] es), sum-group_onto f key [] es)

-- Totals of rows.
abbrev pub sum_tokens : List Tokens → Tokens
sum_tokens ts = record {
  input_tokens = sum_by (λ (t : Tokens). t.input_tokens) ts;
  output_tokens = sum_by (λ (t : Tokens). t.output_tokens) ts;
  cached_input_tokens = sum_by (λ (t : Tokens). t.cached_input_tokens) ts;
  reasoning_tokens = sum_by (λ (t : Tokens). t.reasoning_tokens) ts;
  total_tokens = sum_by (λ (t : Tokens). t.total_tokens) ts;
}

group_tokens : String × List UsageEvent → Tokens
group_tokens g = token_totals g.1

sum_tokens-part :
    (before : String → String → Bool) (key : UsageEvent → String) (es : List UsageEvent)
    (t : Tokens → ℕ) (f : UsageEvent → ℕ)
    → ((g : String × List UsageEvent) → t (group_tokens g) ≡ grouped f g)
    → sum_by t (map group_tokens (sort_items before (group_onto key [] es))) ≡ sum_by f es
sum_tokens-part before key es t f h =
    let gs = sort_items before (group_onto key [] es) in
    sum_by-map t group_tokens gs ∙ sum_by-cong gs ∙ sum-groups before f key es
  where
    sum_by-cong :
        (gs : List (String × List UsageEvent))
        → sum_by (λ g. t (group_tokens g)) gs ≡ sum_by (grouped f) gs
    sum_by-cong [] = refl
    sum_by-cong (g ∷ gs) = omega (arith, h g, sum_by-cong gs)

sum-group_tokens :
    (before : String → String → Bool) (key : UsageEvent → String) (es : List UsageEvent)
    → sum_tokens (map group_tokens (sort_items before (group_onto key [] es))) ≡ token_totals es
unfolding token_totals group_tokens
sum-group_tokens before key es =
    rw
      (
        sum_tokens-part before key es (λ (t : Tokens). t.input_tokens)
            (λ (e : UsageEvent). e.input_tokens) (λ g. refl),
        sum_tokens-part before key es (λ (t : Tokens). t.output_tokens)
            (λ (e : UsageEvent). e.output_tokens) (λ g. refl),
        sum_tokens-part before key es (λ (t : Tokens). t.cached_input_tokens)
            (λ (e : UsageEvent). e.cached_input_tokens) (λ g. refl),
        sum_tokens-part before key es (λ (t : Tokens). t.reasoning_tokens)
            (λ (e : UsageEvent). e.reasoning_tokens) (λ g. refl),
        sum_tokens-part before key es (λ (t : Tokens). t.total_tokens)
            (λ (e : UsageEvent). e.total_tokens) (λ g. refl),
      )
      refl

length-sum {ℓ} : {A : Type ℓ} (xs : List A) → length xs ≡ sum_by (λ _. 1) xs
length-sum [] = refl
length-sum (x ∷ xs) = omega (arith, length-sum xs)

-- The amounts of consistent events are consistent.
pub record IsConsistent (t : Tokens) : Type 0 where
  pub total : t.total_tokens ≡ t.input_tokens + t.output_tokens
  pub cached_within : t.cached_input_tokens ≤ t.input_tokens
  pub reasoning_within : t.reasoning_tokens ≤ t.output_tokens

token_totals-IsConsistent :
    (es : List UsageEvent) → All IsAccounted es → IsConsistent (token_totals es)
unfolding token_totals
token_totals-IsConsistent [] h = record {
  total = refl;
  cached_within = omega arith;
  reasoning_within = omega arith;
}
token_totals-IsConsistent (e ∷ es) h =
    let a = h.0 in
    let ih = token_totals-IsConsistent es h.1 in
    record {
      total = omega (arith, a.total, ih.total);
      cached_within = omega (arith, a.cached_within, ih.cached_within);
      reasoning_within = omega (arith, a.reasoning_within, ih.reasoning_within);
    }

keep-All :
    (p : UsageEvent → Bool) (es : List UsageEvent)
    → All IsAccounted es
    → All IsAccounted (keep p es)
keep-All p [] h = tt
keep-All p (e ∷ es) h = elim (Bool-cases (p e)) [
  | inl t ↦ rw t (h.0, keep-All p es h.1)
  | inr f ↦ rw f (keep-All p es h.1)
]

-- The rows of a summary add up to its totals.
pub record IsBalanced (s : Summary) : Type 0 where
  pub model_tokens : sum_tokens (map (λ (r : Row). r.tokens) s.models) ≡ s.tokens
  pub hour_tokens : sum_tokens (map (λ (r : HourRow). r.tokens) s.time_buckets) ≡ s.tokens
  pub model_events : sum_by (λ (r : Row). r.event_count) s.models ≡ s.event_count
  pub model_costs : sum_by (λ (r : Row). r.cost.known_micros) s.models ≡ s.cost.known_micros
  pub consistent : IsConsistent s.tokens

-- In every summary, of a task or of one instance, the tokens, the events and the known costs of the models
-- add up to the totals, as do the tokens of the hours; and where the events of the task are a ledger, the
-- total tokens are the input and the output, which bound the cached and the reasoning tokens.
pub summary-IsBalanced :
    (before : String → String → Bool) (master_id : String) (instance_id : Option String)
    (members : List Reporter) (meter : Meter)
    → IsLedger meter.events
    → IsBalanced (summary before master_id instance_id members meter)
unfolding summary group_tokens cost_summary
summary-IsBalanced before master_id instance_id members meter l =
    let shown = λ (e : UsageEvent). asked_for before instance_id e.instance_id in
    let events : List UsageEvent = keep shown meter.events in
    let model_key = λ (e : UsageEvent). e.model in
    let hour_key = λ (e : UsageEvent). e.hour in
    let groups : Dict (List UsageEvent) = sort_items before (group_onto model_key [] events) in
    let hours : Dict (List UsageEvent) = sort_items before (group_onto hour_key [] events) in
    let price = λ (e : UsageEvent). if is_priced e then micros e else 0 in
    record {
      model_tokens =
          ap sum_tokens (map-map (λ (r : Row). r.tokens) (row_of before) groups)
          ∙ sum-group_tokens before model_key events;
      hour_tokens =
          ap sum_tokens (map-map (λ (r : HourRow). r.tokens) (hour_row_of before) hours)
          ∙ sum-group_tokens before hour_key events;
      model_events =
          sum_by-map (λ (r : Row). r.event_count) (row_of before) groups
          ∙ sum-lengths groups
          ∙ sum-groups before (λ _. 1) model_key events
          ∙ sym (length-sum events);
      model_costs =
          sum_by-map (λ (r : Row). r.cost.known_micros) (row_of before) groups
          ∙ sum-prices groups
          ∙ sum-groups before price model_key events
          ∙ sym (sum_by-keep micros is_priced events);
      consistent = token_totals-IsConsistent events (keep-All shown meter.events l.accounted);
    }
  where
    sum-lengths :
        (gs : Dict (List UsageEvent))
        → sum_by (λ (g : String × List UsageEvent). length g.1) gs ≡ sum_by (grouped (λ _. 1)) gs
    sum-lengths [] = refl
    sum-lengths (g ∷ gs) = omega (arith, length-sum g.1, sum-lengths gs)

    sum-prices :
        (gs : Dict (List UsageEvent))
        → sum_by (λ (g : String × List UsageEvent). sum_by micros (keep is_priced g.1)) gs
          ≡ sum_by (grouped (λ (e : UsageEvent). if is_priced e then micros e else 0)) gs
    sum-prices [] = refl
    sum-prices (g ∷ gs) = omega (arith, sum_by-keep micros is_priced g.1, sum-prices gs)
