-- ===== src/Usage/Summary.antt =====
-- backend/harness/services/usage.py: `summary`. The order of texts is a parameter, and so is what the
-- store has of the task, its plan and the instance.
use agentic_design_harness.Common.{
  eqb, if◌then◌else◌, is_some, length, any, all, is_empty, keep, sum_by, Dict, lookup, index_by, ℕ,
  ◌-◌, String, Bool, true, false, ◌&&◌, ◌||◌, not, Option, none, some, List, [], ◌∷◌, ◌++◌, map,
  ◌==◌,
}
use agentic_design_harness.Status.{running}
use agentic_design_harness.Model.{AgentType, master}
use agentic_design_harness.Usage.{
  UsageEvent, Reporter, Completeness, not_reported, in_part, complete, Entry, Meter, reported_by,
}

pub record Tokens : Type 0 where
  pub input_tokens : ℕ
  pub output_tokens : ℕ
  pub cached_input_tokens : ℕ
  pub reasoning_tokens : ℕ
  pub total_tokens : ℕ

-- `_token_totals`
unfoldable pub token_totals : List UsageEvent → Tokens
token_totals events = record {
  input_tokens = sum_by (λ (e : UsageEvent). e.input_tokens) events;
  output_tokens = sum_by (λ (e : UsageEvent). e.output_tokens) events;
  cached_input_tokens = sum_by (λ (e : UsageEvent). e.cached_input_tokens) events;
  reasoning_tokens = sum_by (λ (e : UsageEvent). e.reasoning_tokens) events;
  total_tokens = sum_by (λ (e : UsageEvent). e.total_tokens) events;
}

pub data Priced : Type 0 where
  unknown_price all_priced some_priced : Priced

pub record Cost : Type 0 where
  pub completeness : Priced
  pub known_micros : ℕ
  pub priced_event_count : ℕ
  pub unpriced_event_count : ℕ
  pub price_catalog_revisions : List String

abbrev pub is_priced : UsageEvent → Bool
is_priced e = is_some e.cost_micros

abbrev pub micros : UsageEvent → ℕ
micros e = elim e.cost_micros [ none ↦ 0 | some n ↦ n ]

-- `defaultdict(list)` filled in order
unfoldable pub add_to_group : String → UsageEvent → Dict (List UsageEvent) → Dict (List UsageEvent)
add_to_group k e [] = (k, e ∷ []) ∷ []
add_to_group k e ((j, g) ∷ d) =
    let rest = add_to_group k e d in if k == j then (j, g ++ e ∷ []) ∷ d else (j, g) ∷ rest

unfoldable pub group_onto :
    (UsageEvent → String) → Dict (List UsageEvent) → List UsageEvent → Dict (List UsageEvent)
unfolding add_to_group
group_onto key d [] = d
group_onto key d (e ∷ es) = group_onto key (add_to_group (key e) e d) es

pub record Row : Type 0 where
  pub name : String
  pub event_count : ℕ
  pub tokens : Tokens
  pub cost : Cost

pub record HourRow : Type 0 where
  pub hour : String
  pub event_count : ℕ
  pub tokens : Tokens

pub record InstanceRow : Type 0 where
  pub instance_id : String
  pub agent_type : AgentType
  pub completeness : Completeness
  pub event_count : ℕ
  pub tokens : Tokens
  pub cost : Cost

pub record Summary : Type 0 where
  pub completeness : Completeness
  pub event_count : ℕ
  pub tokens : Tokens
  pub cost : Cost
  pub instances : List InstanceRow
  pub models : List Row
  pub time_buckets : List HourRow
  pub events : List UsageEvent

abbrev pub is_complete_row : InstanceRow → Bool
is_complete_row row = elim row.completeness [
  | not_reported ↦ false
  | in_part ↦ false
  | complete ↦ true
]

abbrev pub is_reported_row : InstanceRow → Bool
is_reported_row row = elim row.completeness [
  | not_reported ↦ false
  | in_part ↦ true
  | complete ↦ true
]

abbrev pub overall : List InstanceRow → List UsageEvent → Completeness
overall rows events =
    if not (is_empty rows) && all is_complete_row rows
    then complete
    else if not (is_empty events) || any is_reported_row rows
    then in_part
    else not_reported

module _ (before : String → String → Bool) where
  -- `sorted` of the items of a dictionary, whose keys differ
  unfoldable pub insert_sorted : {V : Type 0} → String × V → Dict V → Dict V
  insert_sorted x [] = x ∷ []
  insert_sorted x (y ∷ d) =
      let rest = insert_sorted x d in if before y.0 x.0 then y ∷ rest else x ∷ y ∷ d

  unfoldable pub sort_items : {V : Type 0} → Dict V → Dict V
  unfolding insert_sorted
  sort_items [] = []
  sort_items (x ∷ d) = insert_sorted x (sort_items d)

  abbrev pub keys : {V : Type 0} → Dict V → List String
  keys [] = []
  keys ((k, v) ∷ d) = k ∷ keys d

  -- `_cost_summary`
  unfoldable pub cost_summary : List UsageEvent → Cost
  unfolding sort_items
  cost_summary events =
      let reported = keep is_priced events in
      record {
        completeness =
            if is_empty events || is_empty reported
            then unknown_price
            else if eqb (length reported) (length events)
            then all_priced
            else some_priced;
        known_micros = sum_by micros reported;
        priced_event_count = length reported;
        unpriced_event_count = length events - length reported;
        price_catalog_revisions = keys (
            sort_items
              (index_by (λ s. s) (map (λ (e : UsageEvent). e.price_catalog_revision) reported)));
      }

  abbrev pub row_of : String × List UsageEvent → Row
  row_of (name, events) = record {
    name = name;
    event_count = length events;
    tokens = token_totals events;
    cost = cost_summary events;
  }

  abbrev pub hour_row_of : String × List UsageEvent → HourRow
  hour_row_of (hour, events) = record {
    hour = hour;
    event_count = length events;
    tokens = token_totals events;
  }

  abbrev pub row_completeness : Option Entry → List UsageEvent → Completeness
  row_completeness none events = if is_empty events then not_reported else in_part
  row_completeness (some entry) events = entry.status

  abbrev pub instance_row : Meter → List UsageEvent → Reporter → InstanceRow
  instance_row meter events r =
      let own = keep (reported_by r.instance_id) events in
      record {
        instance_id = r.instance_id;
        agent_type = r.agent_type;
        completeness = row_completeness (lookup r.instance_id meter.collection) own;
        event_count = length own;
        tokens = token_totals own;
        cost = cost_summary own;
      }

  abbrev pub asked_for : Option String → String → Bool
  asked_for none id = true
  asked_for (some asked) id = id == asked

  -- The rows of the instances: those of the plan, and the master where it has usage.
  abbrev pub with_master : String → Meter → List Reporter → List Reporter
  with_master master_id meter members =
      if is_some (lookup master_id meter.collection)
      then members ++ record { instance_id = master_id; agent_type = master; status = running } ∷ []
      else members

  -- `summary`, of a task whose instances are known
  unfoldable pub summary : String → Option String → List Reporter → Meter → Summary
  unfolding token_totals cost_summary group_onto sort_items
  summary master_id instance_id members meter =
      let events = keep (λ (e : UsageEvent). asked_for instance_id e.instance_id) meter.events in
      let shown =
        keep (λ (r : Reporter). asked_for instance_id r.instance_id)
          (with_master master_id meter members) in
      let rows = map (instance_row meter events) shown in
      record {
        completeness = overall rows events;
        event_count = length events;
        tokens = token_totals events;
        cost = cost_summary events;
        instances = rows;
        models = map row_of (sort_items (group_onto (λ (e : UsageEvent). e.model) [] events));
        time_buckets =
            map hour_row_of (sort_items (group_onto (λ (e : UsageEvent). e.hour) [] events));
        events = events;
      }
