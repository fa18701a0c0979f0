-- ===== src/Commands/Saving/Merge.antt =====
-- backend/harness/domain/service.py: what a merge into a plan changes.
use agentic_design_harness.Common.{
  ltb, eqb, if◌then◌else◌, Bool-cases, Code, ok, guard, require, index, >>=-eq-ok, guard-eq-ok,
  ok_inj, if-eq-ok, lookup-index_by_sound, Dict, lookup, index_by, ℕ, ◌≤◌, String, ◌≡◌, refl, sym,
  ap, ◌∙◌, subst, ◌≢◌, inl, inr, Bool, false, not, Option, none, some, List, [], ◌∷◌, arith, ◌==◌,
  eq_iff,
}
use agentic_design_harness.Model.{Instance, Card, Plan}
use agentic_design_harness.Topology.{validate_plan}
use agentic_design_harness.Commands.{Saved, Envelope, instance_index, touch}
use agentic_design_harness.Commands.Tasks.{merges}
use agentic_design_harness.Commands.Requests.{RawCard, PlanRequest, new_card}
use agentic_design_harness.Commands.Saving.{
  Stored, saved_plan_revision, normalize, settle_plan, save_plan,
}
use agentic_design_harness.Commands.Saving.Committed.{save_plan-steps}
use agentic_design_harness.Commands.Normalization.{
  waits_to_start, created_or, merge_card, merge_cards, check_merge, merged_plan, merged_cards,
  normalize_merge,
}

-- A card of a merged plan against the landed one.
pub record IsMerged (instances : Dict Instance) (landed card : Card) : Type 0 where
  pub same_id : card.card_id ≡ landed.card_id
  pub same_instance : card.instance_id ≡ landed.instance_id
  pub not_older : landed.revision ≤ card.revision
  pub newer_or_same : card.revision ≡ landed.revision → card ≡ landed
  pub started :
      (i : Instance)
      → lookup landed.instance_id instances ≡ some i
      → waits_to_start i.status ≡ false
      → card ≡ landed

pub data AllMerged (instances : Dict Instance) : List Card → List Card → Type 0 where
  all_merged : AllMerged instances [] []
  one_merged :
      {landed card : Card} {old new : List Card}
      → IsMerged instances landed card
      → AllMerged instances old new
      → AllMerged instances (landed ∷ old) (card ∷ new)

unchanged : (instances : Dict Instance) (c : Card) → IsMerged instances c c
unchanged instances c = record {
  same_id = refl;
  same_instance = refl;
  not_older = omega arith;
  newer_or_same = λ _. refl;
  started = λ i _ _. refl;
}

index-some {ℓ} : {A : Type ℓ} (o : Option A) (a : A) → index o ≡ ok a → o ≡ some a
index-some none a h = cc
index-some (some b) a h = ap some (ok_inj h)

waits_not :
    (i j : Instance)
    → not (waits_to_start i.status) ≡ false
    → i ≡ j
    → waits_to_start j.status ≢ false
waits_not i j w e n =
    let m : waits_to_start i.status ≡ false =
      ap (λ (x : Instance). waits_to_start x.status) e ∙ n in
    ground (arith, w, m)

module _ (task_id : String) (now : ℕ) (instances : Dict Instance) (raws : List RawCard) where
  abbrev incoming : Dict RawCard
  incoming = index_by (λ (c : RawCard). c.card_id) raws

  merge_card-IsMerged :
      (landed card : Card)
      → merge_card task_id now instances incoming landed ≡ ok card
      → IsMerged instances landed card
  unfolding merge_card
  merge_card-IsMerged landed card h =
      let (raw, r, h1) = >>=-eq-ok (index (lookup landed.card_id incoming)) _ h in
      let (_, g, h2) =
        >>=-eq-ok (guard (raw.instance_id == landed.instance_id) Code.validation_error) _ h1 in
      let (i, l, h3) = >>=-eq-ok (index (lookup landed.instance_id instances)) _ h2 in
      let own : raw.card_id ≡ landed.card_id =
        (lookup-index_by_sound (λ (c : RawCard). c.card_id) landed.card_id raws
          (index-some _ raw r)).1 in
      let here : raw.instance_id ≡ landed.instance_id =
        (eq_iff raw.instance_id landed.instance_id).0 (guard-eq-ok _ _ g) in
      elim (if-eq-ok (not (waits_to_start i.status)) _ _ h3) [
        | inl (_, e) ↦
            subst (λ (c : Card). IsMerged instances landed c) (ok_inj e)
              (unchanged instances landed)
        | inr (w, h4) ↦
            let (_, o, h5) =
              >>=-eq-ok (guard (not (ltb raw.revision landed.revision)) Code.revision_conflict) _
                h4 in
            let not_older : landed.revision ≤ raw.revision =
              ground (arith, guard-eq-ok (not (ltb raw.revision landed.revision)) _ o) in
            let newer : Card = new_card task_id (created_or now raw.created_at) raw in
            let pick = λ (b : Bool). ok (if b then landed else newer) in
            elim (Bool-cases (eqb raw.revision landed.revision)) [
              | inl t ↦
                  subst (λ (c : Card). IsMerged instances landed c) (ok_inj (sym (ap pick t) ∙ h5))
                    (unchanged instances landed)
              | inr f ↦
                  subst (λ (c : Card). IsMerged instances landed c) (ok_inj (sym (ap pick f) ∙ h5))
                    (record {
                      same_id = own;
                      same_instance = here;
                      not_older = not_older;
                      newer_or_same = λ e. absurd (ground (arith, f, e));
                      started = λ j k n. absurd (waits_not i j w (ok_inj (sym l ∙ ap index k)) n);
                    })
            ]
      ]

  merge_cards-AllMerged :
      (old new : List Card)
      → merge_cards (merge_card task_id now instances incoming) old ≡ ok new
      → AllMerged instances old new
  unfolding merge_cards
  merge_cards-AllMerged [] new h =
      subst (λ (cs : List Card). AllMerged instances [] cs) (ok_inj h) all_merged
  merge_cards-AllMerged (c ∷ cs) new h =
      let (d, one, h1) = >>=-eq-ok (merge_card task_id now instances incoming c) _ h in
      let (ds, rest, h2) =
        >>=-eq-ok (merge_cards (merge_card task_id now instances incoming) cs) _ h1 in
      subst (λ (cs' : List Card). AllMerged instances (c ∷ cs) cs') (ok_inj h2)
        (one_merged (merge_card-IsMerged c d one) (merge_cards-AllMerged cs ds rest))

-- The parts of a merged plan.
pub record MergeKeeps (existing merged : Plan) : Type 0 where
  pub same_stages : merged.stages ≡ existing.stages
  pub same_instances : merged.instances ≡ existing.instances
  pub cards : AllMerged (instance_index existing) existing.task_cards merged.task_cards

-- A merge leaves stages and instances as they are, and keeps for each landed card one of the same id
-- and instance, whose revision is not older, which changes only under a newer revision, and not at all
-- once its instance has left READY and UNAVAILABLE.
pub save_plan-MergeKeeps :
    (schema : Plan → Bool) (stored : Stored) (envelope : Envelope) (expected : Option ℕ)
    (request : PlanRequest) (now : ℕ) (saved : Saved) (existing : Plan)
    → save_plan schema stored merges envelope expected request now ≡ ok saved
    → stored.plan ≡ some existing
    → MergeKeeps existing saved.plan
unfolding normalize settle_plan normalize_merge
save_plan-MergeKeeps schema stored envelope expected request now saved existing h there =
    let steps = save_plan-steps schema stored merges envelope expected request now saved h in
    let (p, q, h1) = >>=-eq-ok (require stored.plan Code.task_not_found) _ steps.was_normalized in
    let same : p ≡ existing = ok_inj (sym q ∙ ap (λ o. require o Code.task_not_found) there) in
    let (_, _, h2) = >>=-eq-ok (check_merge p request) _ h1 in
    let (cards, m, h3) = >>=-eq-ok (merged_cards stored.task p request now) _ h2 in
    let merged : Plan = merged_plan stored.task p (saved_plan_revision stored) cards now in
    let (_, _, e) = >>=-eq-ok (validate_plan schema merged) _ h3 in
    let settled : touch now merged ≡ saved.plan =
      ap (touch now) (ok_inj e) ∙ ok_inj steps.was_settled in
    subst (λ (x : Plan). MergeKeeps x saved.plan) same
      (subst (λ (x : Plan). MergeKeeps p x) settled
        (record {
          same_stages = refl;
          same_instances = refl;
          cards =
              merge_cards-AllMerged stored.task.task_id now (instance_index p) request.task_cards
                p.task_cards cards m;
        }))
