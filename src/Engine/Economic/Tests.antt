-- ===== src/Engine/Economic/Tests.antt =====
-- simswarm/environments/economic.py at concrete inputs.
use sim_swarm.Prelude.{ℕ, ◌≡◌, refl, List, [], ◌∷◌, ◌++◌, map, select, none, some}
use sim_swarm.Prelude.Int.{ℤ, pos, negsuc, ◌+ℤ◌}
use sim_swarm.Prelude.Text.{codes, text_eq}
use sim_swarm.Prelude.Dict.{text_Eq, lookup, insert}
use sim_swarm.Engine.Types.{Agent}
use sim_swarm.Engine.Decimal.{thousandths, thousandths-IsOrdered}
use sim_swarm.Engine.Economic.{
  Economy, EconomicArgs, execute_action, register_agent, dispatch, handle_hire, handle_invest,
  employed, invested,
}
use sim_swarm.Engine.Economic.Rounds.{
  as_metrics, compute_metrics, emit, emit_metric_change_events, is_change, metric_change,
  publish_events, tick,
}
use sim_swarm.Engine.Economic.Changes.{Measures, tick-tells_changes}
use sim_swarm.Engine.Economic.Balance.{Solvent, execute_action-Solvent}

abbrev firm : Agent
firm = record { id = codes "f1"; name = codes "Firm" }

abbrev economy : Economy ℤ ℕ
economy = record {
  config = record { labor_force = 1000; metric_change_threshold = pos 50 };
  current_round = 0;
  actors =
      (
        codes "f1",
        record {
          agent_id = codes "f1";
          role = codes "producer";
          balance = pos 5000;
          workforce = pos 3;
          price = pos 0;
          output = pos 0;
        },
      )
      ∷ [];
  active_policies = [];
  scenario_variables = [];
  metrics = [];
  pending_events = [];
  last_metrics = [];
  total_investment_cumulative = pos 0;
}

abbrev no_args : EconomicArgs ℤ ℕ
no_args = record {
  price = none;
  count = none;
  amount = none;
  target = none;
  policy_name = none;
  description = none;
  variable = none;
  value = none;
}

economy-Solvent : Solvent thousandths economy
economy-Solvent = (record { balance = refl; workforce = refl }, tt)

execute_action-Solvent_example :
    Solvent thousandths
      (execute_action thousandths firm
        (codes "fire")
        (record no_args { count = some (pos 2) })
        economy).1
execute_action-Solvent_example =
    execute_action-Solvent thousandths thousandths-IsOrdered firm (codes "fire")
      (record no_args { count = some (pos 2) }) economy refl economy-Solvent

-- A negative count: hiring -5 leaves -2 workers.
negative_hire :
    (execute_action thousandths firm
      (codes "hire")
      (record no_args { count = some (negsuc 4) })
      economy).0.payload
    ≡ employed (negsuc 1)
unfolding execute_action register_agent dispatch handle_hire lookup insert text_eq ◌+ℤ◌
negative_hire = refl

-- A negative amount: investing -100 raises the balance from 5 to 105.
negative_investment :
    (execute_action thousandths firm
      (codes "invest")
      (record no_args { amount = some (negsuc 99999) })
      economy).0.payload
    ≡ invested (negsuc 99999) (pos 105000)
unfolding execute_action register_agent dispatch handle_invest lookup insert text_eq
negative_investment = refl

-- The round in which the economy of one firm with more workers than the labour force is first measured.
abbrev new_economy : Economy ℤ ℕ
new_economy = record economy {
  config = record { labor_force = 2; metric_change_threshold = pos 50 };
  metrics = as_metrics (pos 0) (pos 0) (pos 0) (pos 0);
}

-- The sum of at most one number.
abbrev first_of : List ℤ → ℤ
first_of [] = pos 0
first_of (x ∷ xs) = x

tick-tells_changes_example :
    Measures thousandths first_of new_economy (tick thousandths first_of new_economy).metrics
    × ((publish_events (tick thousandths first_of new_economy)).0
        ≡ []
          ++ map (metric_change thousandths (codes "economic") 1 new_economy.metrics) (
              select
                (is_change thousandths (pos 50) new_economy.metrics)
                (tick thousandths first_of new_economy).metrics))
tick-tells_changes_example =
    tick-tells_changes thousandths first_of new_economy thousandths-IsOrdered
      (record { rate = pos 0; price = pos 0; output = pos 0; investment = pos 0; listed = refl })

-- Three workers of a labour force of two: the rate is cut at 1, and the rise from 0 is told.
first_events :
    (publish_events (tick thousandths first_of new_economy)).0
    ≡ metric_change thousandths
        (codes "economic")
        1
        new_economy.metrics
        (codes "employment_rate", pos 1000)
      ∷ []
unfolding tick compute_metrics emit_metric_change_events emit publish_events insert lookup text_eq
    ◌+ℤ◌
first_events = refl
