-- ===== src/Usage/Ledger.antt =====
-- backend/harness/services/usage.py: the events of a task stay a ledger of distinct, consistent facts.
use mathlib.Core.List.{map-append}
use agentic_design_harness.Common.{
  ltb, eqb, Bool-cases, any, All, All-append, elem, distinct, Code, Outcome, ok, err, fault, guard,
  >>=-eq-ok, guard-eq-ok, ok_inj, Dict, lookup, insert, values, ℕ, ◌+◌, ◌≤◌, String, ◌≡◌, refl, sym,
  subst, inl, inr, Bool, true, false, ◌&&◌, ◌||◌, not, Option, none, some, List, [], ◌∷◌, ◌++◌, map,
  arith, ◌==◌, eq_iff,
}
use agentic_design_harness.Model.{master, same_type}
use agentic_design_harness.Usage.{
  UsageEvent, Reporter, check_amounts, event_key, or_else, validate_event, validate_master_event,
  stage_one, stage_batch, append_checked, append_event, go_on, append_staged,
}

-- An event whose total is its input and output, and whose parts are within them.
pub record IsAccounted (e : UsageEvent) : Type 0 where
  pub total : e.total_tokens ≡ e.input_tokens + e.output_tokens
  pub cached_within : e.cached_input_tokens ≤ e.input_tokens
  pub reasoning_within : e.reasoning_tokens ≤ e.output_tokens

pub record IsLedger (events : List UsageEvent) : Type 0 where
  pub distinct_ids : distinct (map event_key events) ≡ true
  pub accounted : All IsAccounted events

check_amounts-IsAccounted : (e : UsageEvent) → check_amounts e ≡ ok tt → IsAccounted e
unfolding check_amounts
check_amounts-IsAccounted e h =
    let (_, a, h1) =
      >>=-eq-ok
        (guard (eqb e.total_tokens (e.input_tokens + e.output_tokens)) Code.validation_error) _ h in
    let (_, b, c) =
      >>=-eq-ok (guard (not (ltb e.input_tokens e.cached_input_tokens)) Code.validation_error) _
        h1 in
    record {
      total = ground (arith, guard-eq-ok _ _ a);
      cached_within =
          ground (arith, guard-eq-ok (not (ltb e.input_tokens e.cached_input_tokens)) _ b);
      reasoning_within =
          ground (arith, guard-eq-ok (not (ltb e.output_tokens e.reasoning_tokens)) _ c);
    }

distinct-snoc :
    (k : String) (ks : List String)
    → distinct ks ≡ true
    → elem k ks ≡ false
    → distinct (ks ++ k ∷ []) ≡ true
distinct-snoc k [] d n = refl
distinct-snoc k (j ∷ ks) d n =
    ground (arith, distinct-snoc k ks, elem-snoc j k ks, eq_iff j k, eq_iff k j)
  where
    elem-snoc : (j k : String) (ks : List String) → elem j (ks ++ k ∷ []) ≡ (elem j ks || (j == k))
    elem-snoc j k [] = ground arith
    elem-snoc j k (i ∷ is) = ground (arith, elem-snoc j k is)

not_elem_of :
    (e : UsageEvent) (events : List UsageEvent)
    → any (λ (f : UsageEvent). f.event_id == e.event_id) events ≡ false
    → elem e.event_id (map event_key events) ≡ false
not_elem_of e [] h = refl
not_elem_of e (f ∷ events) h =
    ground
      (arith, not_elem_of e events, eq_iff f.event_id e.event_id, eq_iff e.event_id f.event_id, h)

module _ (contract : UsageEvent → Outcome (Unit {0})) (digest : UsageEvent → String) where
  append_checked-IsLedger :
      (o : Outcome (Unit {0})) (e : UsageEvent) (events : List UsageEvent)
      → IsAccounted e
      → IsLedger events
      → IsLedger (append_checked contract digest o e events).1
  append_checked-IsLedger (ok _) e events a l =
      elim (Bool-cases (any (λ (f : UsageEvent). f.event_id == e.event_id) events)) [
        | inl t ↦ rw t l
        | inr f ↦ rw f (record {
          distinct_ids =
              subst (λ ks. distinct ks ≡ true) (sym (map-append event_key events (e ∷ [])))
                (distinct-snoc e.event_id (map event_key events) l.distinct_ids
                  (not_elem_of e events f));
          accounted = All-append IsAccounted events (e ∷ []) l.accounted (a, tt);
        })
      ]
  append_checked-IsLedger (err code) e events a l = l
  append_checked-IsLedger (fault x) e events a l = l

  go_on-IsLedger :
      (ran : Outcome Bool × List UsageEvent)
      (next : List UsageEvent → Outcome (Unit {0}) × List UsageEvent)
      → IsLedger ran.1
      → ((events : List UsageEvent) → IsLedger events → IsLedger (next events).1)
      → IsLedger (go_on contract digest ran next).1
  go_on-IsLedger (ok true, events) next l k = k events l
  go_on-IsLedger (ok false, events) next l k = l
  go_on-IsLedger (err code, events) next l k = l
  go_on-IsLedger (fault x, events) next l k = l

  pub append_staged-IsLedger :
      (es events : List UsageEvent)
      → All IsAccounted es
      → IsLedger events
      → IsLedger (append_staged contract digest es events).1
  unfolding append_staged append_event
  append_staged-IsLedger [] events a l = l
  append_staged-IsLedger (e ∷ es) events a l =
      go_on-IsLedger (append_event contract digest e events)
        (λ next. append_staged contract digest es next)
        (append_checked-IsLedger (contract e) e events a.0 l)
        (λ next. append_staged-IsLedger es next a.1)

  abbrev AllAccounted : Dict UsageEvent → Type 0
  AllAccounted d = All IsAccounted (values d)

  insert-AllAccounted :
      (k : String) (e : UsageEvent) (d : Dict UsageEvent)
      → IsAccounted e
      → AllAccounted d
      → AllAccounted (insert k e d)
  unfolding insert values
  insert-AllAccounted k e [] a h = (a, tt)
  insert-AllAccounted k e ((j, f) ∷ d) a h = elim (Bool-cases (k == j)) [
    | inl t ↦ rw t (a, h.1)
    | inr n ↦ rw n (h.0, insert-AllAccounted k e d a h.1)
  ]

  stage_one-AllAccounted :
      (existing : Dict UsageEvent) (o : Option UsageEvent) (e : UsageEvent)
      (staged : Dict UsageEvent) (n : ℕ) (next : Dict UsageEvent × ℕ)
      → IsAccounted e
      → AllAccounted staged
      → stage_one contract digest existing o e staged n ≡ ok next
      → AllAccounted next.0
  stage_one-AllAccounted existing none e staged n next a h g =
      subst (λ (x : Dict UsageEvent × ℕ). AllAccounted x.0) (ok_inj g)
        (insert-AllAccounted e.event_id e staged a h)
  stage_one-AllAccounted existing (some p) e staged n next a h g =
      let (_, _, i) = >>=-eq-ok (guard (digest p == digest e) Code.idempotency_conflict) _ g in
      subst (λ (x : Dict UsageEvent × ℕ). AllAccounted x.0) (ok_inj i) h

  pub stage_batch-AllAccounted :
      (validate : UsageEvent → Outcome (Unit {0})) (existing staged : Dict UsageEvent) (n : ℕ)
      (batch : List UsageEvent) (after : Dict UsageEvent × ℕ)
      → ((e : UsageEvent) → validate e ≡ ok tt → IsAccounted e)
      → AllAccounted staged
      → stage_batch contract digest validate existing staged n batch ≡ ok after
      → AllAccounted after.0
  unfolding stage_batch
  stage_batch-AllAccounted validate existing staged n [] after v h g =
      subst (λ (x : Dict UsageEvent × ℕ). AllAccounted x.0) (ok_inj g) h
  stage_batch-AllAccounted validate existing staged n (e ∷ batch) after v h g =
      let (_, a, g1) = >>=-eq-ok (validate e) _ g in
      let seen = or_else (lookup e.event_id staged) (lookup e.event_id existing) in
      let (next, b, g2) = >>=-eq-ok (stage_one contract digest existing seen e staged n) _ g1 in
      stage_batch-AllAccounted validate existing next.0 next.1 batch after v
        (stage_one-AllAccounted existing seen e staged n next (v e a) h b) g2

  pub validate_event-IsAccounted :
      (task_id : String) (r : Reporter) (e : UsageEvent)
      → validate_event contract digest task_id r e ≡ ok tt
      → IsAccounted e
  unfolding validate_event
  validate_event-IsAccounted task_id r e h =
      let (_, _, h1) = >>=-eq-ok (contract e) _ h in
      let (_, _, h2) =
        >>=-eq-ok
          (guard ((e.task_id == task_id) && (e.instance_id == r.instance_id)) Code.validation_error)
          _ h1 in
      let (_, _, h3) =
        >>=-eq-ok (guard (same_type e.agent_type r.agent_type) Code.validation_error) _ h2 in
      check_amounts-IsAccounted e h3

  pub validate_master_event-IsAccounted :
      (task_id master_id : String) (e : UsageEvent)
      → validate_master_event contract digest task_id master_id e ≡ ok tt
      → IsAccounted e
  unfolding validate_master_event
  validate_master_event-IsAccounted task_id master_id e h =
      let (_, _, h1) = >>=-eq-ok (contract e) _ h in
      let (_, _, h2) =
        >>=-eq-ok
          (guard
            ((e.task_id == task_id)
              && (e.instance_id == master_id)
              && same_type e.agent_type master)
            Code.validation_error)
          _ h1 in
      let (_, _, h3) =
        >>=-eq-ok
          (guard (elem e.call_type ("reasoning_llm" ∷ "vision_language_model" ∷ []))
            Code.validation_error)
          _ h2 in
      check_amounts-IsAccounted e h3
