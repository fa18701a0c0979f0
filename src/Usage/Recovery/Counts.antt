-- ===== src/Usage/Recovery/Counts.antt =====
-- backend/harness/services/usage.py: after a recovery the collection state counts the stored events.
use agentic_design_harness.Common.{
  if◌then◌else◌, Bool-cases, is_some, Option-cases, count, Code, Outcome, ok, require, index,
  >>=-eq-ok, ok_inj, if-eq-ok, lookup-insert, Dict, lookup, ℕ, ◌+◌, String, ◌≡◌, refl, sym, ap, ◌∙◌,
  subst, ◌≢◌, inl, inr, true, false, not, Option, none, some, List, [], ◌∷◌, arith, ◌==◌, eq_iff,
}
use agentic_design_harness.Model.{AgentType}
use agentic_design_harness.Usage.{UsageEvent, in_part, Entry, Meter, reported_by}
use agentic_design_harness.Usage.Recovery.{
  add_count, counts_onto, last_ids_onto, needs_repair, repaired_cursor, repair_count, repair_counts,
  recover_usage,
}
use agentic_design_harness.Usage.Ingestion.{prior_cursor}

count_in : Option ℕ → ℕ
count_in none = 0
count_in (some n) = n

lookup-add_count :
    (k j : String) (d : Dict ℕ)
    → lookup k (add_count j d) ≡ (if k == j then some (count_in (lookup k d) + 1) else lookup k d)
unfolding lookup add_count count_in
lookup-add_count k j [] = ground (arith, eq_iff k j)
lookup-add_count k j ((i, n) ∷ d) =
    ground (arith, eq_iff k j, eq_iff j i, eq_iff k i, lookup-add_count k j d)

count_in-add_count :
    (k j : String) (d : Dict ℕ)
    → count_in (lookup k (add_count j d)) ≡ count_in (lookup k d) + (if j == k then 1 else 0)
unfolding count_in
count_in-add_count k j d = ap count_in (lookup-add_count k j d) ∙ elim (Bool-cases (k == j)) [
  | inl t ↦ rw t (ground (arith, eq_iff k j, eq_iff j k, t))
  | inr f ↦ rw f (ground (arith, eq_iff k j, eq_iff j k, f))
]

count_in-counts_onto :
    (k : String) (es : List UsageEvent) (d : Dict ℕ)
    → count_in (lookup k (counts_onto d es)) ≡ count_in (lookup k d) + count (reported_by k) es
unfolding counts_onto
count_in-counts_onto k [] d = omega arith
count_in-counts_onto k (e ∷ es) d = ground (
  arith,
  count_in-counts_onto k es (add_count e.instance_id d),
  count_in-add_count k e.instance_id d,
)

-- No key stands twice.
abbrev NodupCounts : Dict ℕ → Type 0
NodupCounts [] = Unit
NodupCounts ((k, n) ∷ d) = (lookup k d ≡ none) × NodupCounts d

add_count-NodupCounts : (k : String) (d : Dict ℕ) → NodupCounts d → NodupCounts (add_count k d)
unfolding add_count lookup
add_count-NodupCounts k [] h = (refl, tt)
add_count-NodupCounts k ((j, n) ∷ d) h = elim (Bool-cases (k == j)) [
  | inl t ↦ rw t h
  | inr f ↦ rw f (
    ground (arith, lookup-add_count j k d, eq_iff j k, eq_iff k j, f, h.0),
    add_count-NodupCounts k d h.1,
  )
]

counts_onto-NodupCounts :
    (es : List UsageEvent) (d : Dict ℕ) → NodupCounts d → NodupCounts (counts_onto d es)
unfolding counts_onto
counts_onto-NodupCounts [] d h = h
counts_onto-NodupCounts (e ∷ es) d h =
    counts_onto-NodupCounts es (add_count e.instance_id d) (add_count-NodupCounts e.instance_id d h)

-- An entry that counts its events and has a cursor.
pub record IsCounted (n : ℕ) (o : Option Entry) : Type 0 where
  pub entry : Entry
  pub is_there : o ≡ some entry
  pub counts : entry.event_count ≡ n
  pub has_cursor : is_some entry.cursor ≡ true

not_needed : (n : ℕ) (o : Option Entry) → needs_repair n o ≡ false → IsCounted n o
not_needed n none h = cc
not_needed n (some entry) h = record {
  entry = entry;
  is_there = refl;
  counts = ground (arith, h);
  has_cursor = ground (arith, h);
}

repaired_cursor-some :
    (o : Option String) (last : Outcome String) (c : Option String)
    → repaired_cursor o last ≡ ok c
    → is_some c ≡ true
repaired_cursor-some none last c h =
    let (id, _, e) = >>=-eq-ok last _ h in ap is_some (sym (ok_inj e))
repaired_cursor-some (some id) last c h = ap is_some (sym (ok_inj h))

module _ (agent_of : String → Option AgentType) (last_ids : Dict String) where
  -- What one round leaves: the entry of its instance is counted, the others stay.
  record IsRepaired (k : String) (n : ℕ) (before after : Dict Entry) : Type 0 where
    own : IsCounted n (lookup k after)
    others : (j : String) → j == k ≡ false → lookup j after ≡ lookup j before

  repair_count-IsRepaired :
      (k : String) (n : ℕ) (before after : Dict Entry)
      → repair_count agent_of last_ids (k, n) before ≡ ok after
      → IsRepaired k n before after
  unfolding repair_count
  repair_count-IsRepaired k n before after h =
      elim (if-eq-ok (not (needs_repair n (lookup k before))) _ _ h) [
        | inl (t, e) ↦
            subst (λ (d : Dict Entry). IsRepaired k n before d) (ok_inj e)
              (record {
                own = not_needed n (lookup k before) (ground (arith, t));
                others = λ j d. refl;
              })
        | inr (_, h1) ↦
            let (agent, _, h2) = >>=-eq-ok (require (agent_of k) Code.validation_error) _ h1 in
            let (cursor, c, e) =
              >>=-eq-ok
                (repaired_cursor (prior_cursor (lookup k before)) (index (lookup k last_ids))) _
                h2 in
            let entry : Entry = record {
              agent_type = agent;
              status = in_part;
              event_count = n;
              cursor = cursor;
              source = "recovery";
            } in
            subst (λ (d : Dict Entry). IsRepaired k n before d) (ok_inj e)
              (record {
                own = record {
                  entry = entry;
                  is_there =
                      lookup-insert k k entry before
                      ∙ ap (λ b. if b then some entry else lookup k before) ((eq_iff k k).1 refl);
                  counts = refl;
                  has_cursor = repaired_cursor-some (prior_cursor (lookup k before)) _ cursor c;
                };
                others = λ j d.
                    lookup-insert j k entry before
                    ∙ ap (λ b. if b then some entry else lookup j before) d;
              })
      ]

  repair_counts-others :
      (k : String) (counts : Dict ℕ) (before after : Dict Entry)
      → lookup k counts ≡ none
      → repair_counts agent_of last_ids counts before ≡ ok after
      → lookup k after ≡ lookup k before
  unfolding repair_counts lookup
  repair_counts-others k [] before after n h = ap (lookup k) (sym (ok_inj h))
  repair_counts-others k ((j, m) ∷ counts) before after n h =
      let (next, e, h1) = >>=-eq-ok (repair_count agent_of last_ids (j, m) before) _ h in
      repair_counts-others k counts next after (ground (arith, n)) h1
      ∙ (repair_count-IsRepaired j m before next e).others k (ground (arith, n))

  repair_counts-IsCounted :
      (k : String) (n : ℕ) (counts : Dict ℕ) (before after : Dict Entry)
      → NodupCounts counts
      → lookup k counts ≡ some n
      → repair_counts agent_of last_ids counts before ≡ ok after
      → IsCounted n (lookup k after)
  unfolding repair_counts lookup
  repair_counts-IsCounted k n [] before after d l h = cc
  repair_counts-IsCounted k n ((j, m) ∷ counts) before after d l h =
      let (next, e, h1) = >>=-eq-ok (repair_count agent_of last_ids (j, m) before) _ h in
      elim (Bool-cases (k == j)) [
        | inl t ↦
            let same : j ≡ k = sym ((eq_iff k j).0 t) in
            let count : m ≡ n = ground (arith, l, t) in
            let here : IsCounted m (lookup j next) =
              (repair_count-IsRepaired j m before next e).own in
            let kept : lookup j after ≡ lookup j next =
              repair_counts-others j counts next after d.0 h1 in
            subst (λ x. IsCounted x (lookup k after)) count
              (subst (λ x. IsCounted m (lookup x after)) same
                (subst (λ o. IsCounted m o) (sym kept) here))
        | inr f ↦ repair_counts-IsCounted k n counts next after d.1 (ground (arith, l, f)) h1
      ]

-- After a recovery that succeeds the events are the same, and every instance that has events has an entry
-- in the collection state that counts them and has a cursor, whatever state a crash left there.
pub recover_usage-IsCounted :
    (agent_of : String → Option AgentType) (meter after : Meter) (k : String)
    → recover_usage agent_of meter ≡ ok after
    → count (reported_by k) meter.events ≢ 0
    → (after.events ≡ meter.events)
      × IsCounted (count (reported_by k) meter.events) (lookup k after.collection)
unfolding recover_usage count_in lookup
recover_usage-IsCounted agent_of meter after k h some_events =
    let last_ids = last_ids_onto [] meter.events in
    let counts = counts_onto [] meter.events in
    let (collection, r, e) =
      >>=-eq-ok (repair_counts agent_of last_ids counts meter.collection) _ h in
    let total = count_in-counts_onto k meter.events [] in
    let there : lookup k counts ≡ some (count (reported_by k) meter.events) =
      elim (Option-cases (lookup k counts)) [
        | inl n ↦ absurd (ground (arith, some_events, total, ap count_in n))
        | inr (n, s) ↦ s ∙ ap some (ground (arith, total, ap count_in s))
      ] in
    (
      ap (λ (m : Meter). m.events) (sym (ok_inj e)),
      subst (λ (m : Meter). IsCounted (count (reported_by k) meter.events) (lookup k m.collection))
          (ok_inj e)
          (repair_counts-IsCounted agent_of last_ids k (count (reported_by k) meter.events) counts
            meter.collection collection (counts_onto-NodupCounts meter.events [] tt) there r),
    )
