-- ===== src/Engine/Sweep.antt =====
-- simswarm/sweep.py: the configurations of a scenario sweep.
pub mod Product
mod Tests
use sim_swarm.Prelude.{List, [], ◌∷◌, ◌++◌, map, if◌then◌else◌}
use sim_swarm.Prelude.Text.{Text, is_empty}
use sim_swarm.Prelude.Dict.{Dict}
use sim_swarm.Engine.Value.{Value, Payload}
use sim_swarm.Engine.Loop.State.{SimulationConfig, update_all}

-- `ScenarioSweep`
pub record ScenarioSweep : Type 0 where
  pub base_config : SimulationConfig
  pub vary : Dict Text (List Value)

-- Each value of a variable before each combination of the others.
unfoldable pub with_each : Text → List Value → List Payload → List Payload
with_each name [] keys = []
with_each name (v ∷ values) keys = map (λ key. (name, v) ∷ key) keys ++ with_each name values keys

-- `itertools.product(*var_values)` with the names of the variables, as the `key` of each combination.
unfoldable pub combinations : Dict Text (List Value) → List Payload
combinations [] = [] ∷ []
combinations ((name, values) ∷ vary) = with_each name values (combinations vary)

-- `generate_sweep_configs`
unfoldable pub generate_sweep_configs : ScenarioSweep → List (Payload × SimulationConfig)
generate_sweep_configs sweep =
    if is_empty sweep.vary
    then ([], sweep.base_config) ∷ []
    else map
        (λ key. (
          key,
          record (sweep.base_config) { variables = update_all key sweep.base_config.variables },
        ))
        (combinations sweep.vary)
