-- ===== src/Engine/Economic/Rounds.antt =====
-- simswarm/environments/economic.py: the end of a round, its events, and what an agent observes. Python's
-- `sum` of numbers, and how it prints, are parameters.
use sim_swarm.Prelude.{
  ℕ, ◌+◌, Bool, List, [], ◌∷◌, ◌++◌, get_or, if◌then◌else◌, select, map, length, ltb,
}
use sim_swarm.Prelude.Int.{ℤ, pos, negsuc, ◌+ℤ◌}
use sim_swarm.Prelude.Text.{Text, codes, is_empty}
use sim_swarm.Prelude.Dict.{Dict, text_Eq, lookup, insert}
use sim_swarm.Engine.Types.{Agent, Event}
use sim_swarm.Engine.Number.{Number}
use sim_swarm.Engine.Bridge.{join_lines}
use sim_swarm.Engine.Economic.{
  EconomicActor, EconomicConfig, Policy, MetricChange, Economy, newcomer, register_agent,
}

pub record Printed (N V : Type 0) : Type 0 where
  pub fixed : N → Text
  pub number : N → Text
  pub integer : ℤ → Text
  pub value : V → Text

-- The four metrics, in the order of the dictionary.
abbrev pub as_metrics : {N : Type 0} → N → N → N → N → Dict Text N
as_metrics rate price output investment =
    (codes "employment_rate", rate)
    ∷ (codes "avg_price", price)
    ∷ (codes "total_output", output)
    ∷ (codes "total_investment", investment)
    ∷ []

abbrev pub total_workforce : {N : Type 0} → Dict Text (EconomicActor N) → ℤ
total_workforce [] = pos 0
total_workforce ((id, a) ∷ actors) = a.workforce +ℤ total_workforce actors

module _ {N : Type 0} (num : Number N) where
  abbrev pub of_integer : ℤ → N
  of_integer (pos n) = num.of_int n
  of_integer (negsuc n) = num.neg (num.of_int (n + 1))

  -- `min(x, 1.0)`
  abbrev at_most_one : N → N
  at_most_one x = if num.lt (num.ratio 1 1) x then num.ratio 1 1 else x

  abbrev pub previous_of : Dict Text N → Text → N
  previous_of last key = get_or (lookup key last) (num.ratio 0 1)

  abbrev pub metric_change : Text → ℕ → Dict Text N → Text × N → Event (MetricChange N)
  metric_change name round last m = record {
    source = name;
    type = codes "metric_change";
    payload = record {
      metric = m.0;
      previous = previous_of last m.0;
      current = m.1;
      delta = num.minus m.1 (previous_of last m.0);
    };
    round = round;
  }

  -- The test of `_emit_metric_change_events`.
  abbrev pub is_change : N → Dict Text N → Text × N → Bool
  is_change threshold last m =
      num.le threshold (num.absolute (num.minus m.1 (previous_of last m.0)))

  -- The loop of `_emit_metric_change_events`.
  unfoldable pub emit :
      ℕ
      → N
      → Dict Text N
      → Dict Text N
      → List (Event (MetricChange N))
      → List (Event (MetricChange N))
  emit round threshold last [] pending = pending
  emit round threshold last (m ∷ metrics) pending = emit round threshold last metrics (
      if is_change threshold last m
      then pending ++ metric_change (codes "economic") round last m ∷ []
      else pending)

module _ {N V : Type 0} (num : Number N) (sum : List N → N) where
  abbrev pub employment_rate : Economy N V → N
  employment_rate e =
      if ltb 0 e.config.labor_force
      then at_most_one num
          (num.over (of_integer num (total_workforce e.actors)) (num.of_int e.config.labor_force))
      else num.ratio 0 1

  -- The mean of the prices above zero.
  abbrev pub avg_price : Economy N V → N
  avg_price e =
      let prices = select (num.lt (num.ratio 0 1)) (map (λ a. a.1.price) e.actors) in
      if is_empty prices then num.ratio 0 1 else num.over (sum prices) (num.of_int (length prices))

  -- `_compute_metrics`
  unfoldable pub compute_metrics : Economy N V → Economy N V
  compute_metrics e = record e {
    metrics = insert (codes "total_investment") e.total_investment_cumulative (
        insert (codes "total_output") (sum (map (λ a. a.1.output) e.actors)) (
          insert (codes "avg_price") (avg_price e)
            (insert (codes "employment_rate") (employment_rate e) e.metrics)));
  }

  unfoldable pub emit_metric_change_events : Economy N V → Economy N V
  emit_metric_change_events e = record e {
    pending_events =
        emit num e.current_round e.config.metric_change_threshold e.last_metrics e.metrics
          e.pending_events;
  }

  unfoldable pub tick : Economy N V → Economy N V
  tick e =
      emit_metric_change_events (
        compute_metrics
          (record e { current_round = e.current_round + 1; last_metrics = e.metrics }))

unfoldable pub publish_events :
    {N V : Type 0} → Economy N V → List (Event (MetricChange N)) × Economy N V
publish_events e = (e.pending_events, record e { pending_events = [] })

module _ {N V : Type 0} (num : Number N) where
  unfoldable pub init : EconomicConfig N → ℕ → Economy N V
  init config current_round =
      let zero_metrics =
        as_metrics (num.ratio 0 1) (num.ratio 0 1) (num.ratio 0 1) (num.ratio 0 1) in
      record {
        config = config;
        current_round = current_round;
        actors = [];
        active_policies = [];
        scenario_variables = [];
        metrics = zero_metrics;
        pending_events = [];
        last_metrics = zero_metrics;
        total_investment_cumulative = num.ratio 0 1;
      }

module _ {N V : Type 0} (num : Number N) (printed : Printed N V) where
  abbrev titled : {A : Type 0} → Text → (A → Text) → List A → List Text
  titled title line [] = []
  titled title line (x ∷ xs) = title ∷ line x ∷ map line xs

  -- `get_observations`: the text, and the environment in which the agent is registered.
  unfoldable pub get_observations : Agent → Economy N V → Text × Economy N V
  get_observations agent e =
      let registered = register_agent num agent e in
      let actor = get_or (lookup agent.id registered.actors) (newcomer num agent.id) in
      let metric = λ (m : Text × N). codes "  " ++ m.0 ++ codes ": " ++ printed.fixed m.1 in
      let policy = λ (p : Policy). codes "  - " ++ p.name ++ codes ": " ++ p.description in
      let variable = λ (v : Text × V). codes "  " ++ v.0 ++ codes ": " ++ printed.value v.1 in
      (
        join_lines (
            codes "=== Economic State ===" ∷ codes "Metrics:" ∷ map metric registered.metrics
            ++ titled (codes "Active policies:") policy registered.active_policies
            ++ titled (codes "Scenario variables:") variable registered.scenario_variables
            ++ (codes "Your state: role="
                ++ actor.role
                ++ codes " balance="
                ++ printed.number actor.balance
                ++ codes " workforce="
                ++ printed.integer actor.workforce
                ++ codes " price="
                ++ printed.number actor.price
                ++ codes " output="
                ++ printed.number actor.output)
              ∷ []),
        registered,
      )
