-- ===== src/Commands/Projections/Writes.antt =====
-- backend/harness/domain/service.py `_persist_aggregate`: its writes in their order.
use agentic_design_harness.Common.{
  take, All, All-append, ℕ, zero, suc, String, ◌≡◌, refl, ap, ◌∙◌, Bool, ◌&&◌, some, List, [], ◌∷◌,
  ◌++◌, map,
}
use agentic_design_harness.Model.{Task, Stage, Instance, Plan}
use agentic_design_harness.Topology.{stage_ids, instance_ids}
use agentic_design_harness.Commands.Projections.{
  Board, put_each, absent_ids, erase_each, stage_key, instance_key, put_plan, put_task_file,
  unlink_stage, unlink_instance, put_stage, put_instance, aggregate_writes, apply_writes,
}

module _ (same_task : Task → Task → Bool) (same_stage : Stage → Stage → Bool)
    (same_instance : Instance → Instance → Bool) where
  -- A write that leaves the plan.
  abbrev KeepsPlan : (Board → Board) → Type 0
  KeepsPlan w = (b : Board) → (w b).plan ≡ b.plan

  apply_writes-take_plan :
      (ws : List (Board → Board)) (n : ℕ) (board : Board)
      → All KeepsPlan ws
      → (apply_writes same_task same_stage same_instance (take n ws) board).plan ≡ board.plan
  unfolding apply_writes
  apply_writes-take_plan ws zero board h = refl
  apply_writes-take_plan [] (suc n) board h = refl
  apply_writes-take_plan (w ∷ ws) (suc n) board h =
      apply_writes-take_plan ws n (w board) h.1 ∙ h.0 board

  All-map_keeps :
      {A : Type 0} (f : A → Board → Board) (xs : List A)
      → ((x : A) → KeepsPlan (f x))
      → All KeepsPlan (map f xs)
  All-map_keeps f [] h = tt
  All-map_keeps f (x ∷ xs) h = (h x, All-map_keeps f xs h)

  abbrev pub writes : Bool → Plan → Board → List (Board → Board)
  writes = aggregate_writes same_task same_stage same_instance

  abbrev pub apply : List (Board → Board) → Board → Board
  apply = apply_writes same_task same_stage same_instance

  module _ (skip : Bool) (plan : Plan) (board : Board) where
    abbrev pub gone_stages : List String
    gone_stages = absent_ids (stage_ids plan.stages) board.stages

    abbrev pub gone_instances : List String
    gone_instances = absent_ids (instance_ids plan.instances) board.instances

    abbrev unlinks : List (Board → Board)
    unlinks = map (unlink_instance same_task same_stage same_instance) gone_instances

    abbrev stage_puts : List (Board → Board)
    stage_puts = map (put_stage same_task same_stage same_instance skip) plan.stages

    abbrev instance_puts : List (Board → Board)
    instance_puts = map (put_instance same_task same_stage same_instance skip) plan.instances

    abbrev puts : List (Board → Board)
    puts = put_task_file same_task same_stage same_instance plan ∷ (stage_puts ++ instance_puts)

    puts_keep : All KeepsPlan puts
    puts_keep =
        let later : All KeepsPlan (stage_puts ++ instance_puts) =
          All-append KeepsPlan stage_puts instance_puts
            (All-map_keeps (put_stage same_task same_stage same_instance skip) plan.stages
              (λ x b. refl))
            (All-map_keeps (put_instance same_task same_stage same_instance skip) plan.instances
              (λ x b. refl)) in
        ((λ b. refl), later)

    pub writes-take_plan :
        (n : ℕ) → (apply (take (suc n) (writes skip plan board)) board).plan ≡ some plan
    unfolding aggregate_writes apply_writes
    writes-take_plan n =
        let first = map (unlink_stage same_task same_stage same_instance) gone_stages in
        let later : All KeepsPlan (first ++ (unlinks ++ puts)) =
          All-append KeepsPlan first (unlinks ++ puts)
            (All-map_keeps (unlink_stage same_task same_stage same_instance) gone_stages
              (λ x b. refl))
            (All-append KeepsPlan unlinks puts
              (All-map_keeps (unlink_instance same_task same_stage same_instance) gone_instances
                (λ x b. refl))
              puts_keep) in
        apply_writes-take_plan (first ++ (unlinks ++ puts)) n
          (put_plan same_task same_stage same_instance plan board) later

  apply-append :
      (ws vs : List (Board → Board)) (board : Board)
      → apply (ws ++ vs) board ≡ apply vs (apply ws board)
  unfolding apply_writes
  apply-append [] vs board = refl
  apply-append (w ∷ ws) vs board = apply-append ws vs (w board)

  apply-unlink_stages :
      (ids : List String) (board : Board)
      → apply (map (unlink_stage same_task same_stage same_instance) ids) board
        ≡ record board { stages = erase_each board.stages ids }
  unfolding apply_writes erase_each
  apply-unlink_stages [] board = refl
  apply-unlink_stages (k ∷ ks) board =
      apply-unlink_stages ks (unlink_stage same_task same_stage same_instance k board)

  apply-unlink_instances :
      (ids : List String) (board : Board)
      → apply (map (unlink_instance same_task same_stage same_instance) ids) board
        ≡ record board { instances = erase_each board.instances ids }
  unfolding apply_writes erase_each
  apply-unlink_instances [] board = refl
  apply-unlink_instances (k ∷ ks) board =
      apply-unlink_instances ks (unlink_instance same_task same_stage same_instance k board)

  apply-put_stages :
      (skip : Bool) (xs : List Stage) (board : Board)
      → apply (map (put_stage same_task same_stage same_instance skip) xs) board ≡ record board {
        stages = put_each (λ a b. skip && same_stage a b) stage_key board.stages xs;
      }
  unfolding apply_writes put_each
  apply-put_stages skip [] board = refl
  apply-put_stages skip (x ∷ xs) board =
      apply-put_stages skip xs (put_stage same_task same_stage same_instance skip x board)

  apply-put_instances :
      (skip : Bool) (xs : List Instance) (board : Board)
      → apply (map (put_instance same_task same_stage same_instance skip) xs) board ≡ record board {
        instances = put_each (λ a b. skip && same_instance a b) instance_key board.instances xs;
      }
  unfolding apply_writes put_each
  apply-put_instances skip [] board = refl
  apply-put_instances skip (x ∷ xs) board =
      apply-put_instances skip xs (put_instance same_task same_stage same_instance skip x board)

  module _ (skip : Bool) (plan : Plan) (board : Board) where
    -- What all writes of a commit leave.
    abbrev pub finished_board : Board
    finished_board = record {
      plan = some plan;
      task = some plan.task;
      stages =
          put_each (λ a b. skip && same_stage a b) stage_key
            (erase_each board.stages (gone_stages skip plan board)) plan.stages;
      instances =
          put_each (λ a b. skip && same_instance a b) instance_key
            (erase_each board.instances (gone_instances skip plan board)) plan.instances;
    }

    pub apply-writes : apply (writes skip plan board) board ≡ finished_board
    unfolding aggregate_writes apply_writes
    apply-writes =
        let sp = stage_puts skip plan board in
        let ip = instance_puts skip plan board in
        let un = unlinks skip plan board in
        let b1 : Board = put_plan same_task same_stage same_instance plan board in
        let b2 : Board = record b1 {
          stages = erase_each b1.stages (gone_stages skip plan board);
        } in
        let b3 : Board = record b2 {
          instances = erase_each b2.instances (gone_instances skip plan board);
        } in
        let b4 : Board = put_task_file same_task same_stage same_instance plan b3 in
        let b5 : Board = record b4 {
          stages = put_each (λ a b. skip && same_stage a b) stage_key b4.stages plan.stages;
        } in
        apply-append
          (map (unlink_stage same_task same_stage same_instance) (gone_stages skip plan board))
          (un ++ puts skip plan board) b1
        ∙ ap (apply (un ++ puts skip plan board))
            (apply-unlink_stages (gone_stages skip plan board) b1)
        ∙ apply-append un (puts skip plan board) b2
        ∙ ap (apply (puts skip plan board))
            (apply-unlink_instances (gone_instances skip plan board) b2)
        ∙ apply-append sp ip b4
        ∙ ap (apply ip) (apply-put_stages skip plan.stages b4)
        ∙ apply-put_instances skip plan.instances b5
