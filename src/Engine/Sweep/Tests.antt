-- ===== src/Engine/Sweep/Tests.antt =====
-- simswarm/sweep.py at concrete inputs: two variables, with two values and one.
use sim_swarm.Prelude.{◌≡◌, List, [], ◌∷◌, length, All, refl}
use sim_swarm.Prelude.Int.{pos}
use sim_swarm.Prelude.Text.{Text, codes}
use sim_swarm.Prelude.Dict.{Dict}
use sim_swarm.Engine.Value.{Value, text, whole, Payload}
use sim_swarm.Engine.Loop.State.{SimulationConfig}
use sim_swarm.Engine.Sweep.{ScenarioSweep, with_each, combinations, generate_sweep_configs}
use sim_swarm.Prelude.{IsIn}
use sim_swarm.Engine.Sweep.Product.{Picks, configured, generate_sweep_configs-product}

abbrev base : SimulationConfig
base = record {
  goal = codes "g";
  entities = [];
  rounds = 1;
  variables = (codes "tax", whole (pos 1)) ∷ [];
  scheduled_events = [];
  max_memory_rounds = 20;
}

abbrev vary : Dict Text (List Value)
vary =
    (codes "tax", whole (pos 2) ∷ whole (pos 3) ∷ [])
    ∷ (codes "mood", text (codes "calm") ∷ [])
    ∷ []

keys_of_sweep :
    combinations vary
    ≡ ((codes "tax", whole (pos 2)) ∷ (codes "mood", text (codes "calm")) ∷ [])
      ∷ ((codes "tax", whole (pos 3)) ∷ (codes "mood", text (codes "calm")) ∷ [])
      ∷ []
unfolding combinations with_each
keys_of_sweep = refl

generate_sweep_configs-product_example :
    let sweep : ScenarioSweep = record { base_config = base; vary = vary } in
    All (λ r. Picks vary r.0 × (r ≡ configured sweep r.0)) (generate_sweep_configs sweep)
    × ((key : Payload)
        → Picks vary key
        → IsIn (configured sweep key) (generate_sweep_configs sweep))
    × (length (generate_sweep_configs sweep) ≡ 2)
generate_sweep_configs-product_example = generate_sweep_configs-product base vary
