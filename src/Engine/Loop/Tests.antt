-- ===== src/Engine/Loop/Tests.antt =====
-- simswarm/engine.py at concrete inputs: two agents and one environment, a counter of its own calls.
use sim_swarm.Prelude.{ℕ, ◌+◌, ◌≡◌, true, [], ◌∷◌, some, OnSome, length}
use sim_swarm.Prelude.Int.{ℤ, pos}
use sim_swarm.Prelude.Text.{Text, codes}
use sim_swarm.Prelude.Dict.{Dict, text_Eq, keys}
use sim_swarm.Engine.Decimal.{thousandths}
use sim_swarm.Engine.Value.{Entity}
use sim_swarm.Engine.Loop.State.{Environment, SimulationConfig, Outside, create_agents}
use sim_swarm.Engine.Loop.Rounds.{run}
use sim_swarm.Engine.Loop.Digests.{ToldFrom, run-shows_scheduled}
use sim_swarm.Engine.Loop.Snapshots.{CoversFrom, run-covers}

abbrev counter : Environment ℕ
counter = record {
  get_observations = λ agent n. (codes "count", n);
  tool_names = λ n. codes "add" ∷ [];
  execute_action = λ agent name args n. some (record { success = true; payload = [] }, n + 1);
  tick = λ n. n;
  publish_events = λ n.
      (record { source = codes "counter"; type = codes "count"; payload = []; round = 1 } ∷ [], n);
  current_engagement = λ n. [];
}

abbrev entity : Text → Entity
entity id = record { id = id; name = id; type = codes "person"; summary = [] }

abbrev config : SimulationConfig
config = record {
  goal = codes "count";
  entities = entity (codes "a") ∷ entity (codes "b") ∷ [];
  rounds = 2;
  variables = [];
  scheduled_events = record { round = 2; type = codes "news"; payload = [] } ∷ [];
  max_memory_rounds = 1;
}

abbrev environments : Dict Text ℕ
environments = (codes "counter", 0) ∷ []

-- The model adds in every round, and the agents finish in the order in which they started.
abbrev outside : Outside ℤ
outside = record {
  py = record { str = λ v. []; percent = λ v. []; is_positive = λ v. true; repr = λ p. [] };
  scoring = record { polarity = λ t. pos 0; tag = λ n a b. a };
  listed = λ ids. ids;
  chat = λ round_num p seen. some (record { name = codes "add"; args = [] } ∷ []);
  finish_order = λ round_num ids. ids;
  memory_line = λ round_num call. call.name;
}

run-shows_scheduled_example :
    let ids = keys (create_agents {N = ℤ} config.entities (keys environments) []) in
    OnSome
      (λ sim.
        (length sim.shown ≡ 2)
        × ToldFrom thousandths counter outside config (keys environments) 1 ids sim.shown)
      (run thousandths counter outside config environments)
run-shows_scheduled_example = run-shows_scheduled thousandths counter outside config environments

run-covers_example :
    let ids = keys (create_agents {N = ℤ} config.entities (keys environments) []) in
    OnSome
      (λ sim. (length sim.snapshots ≡ 2) × CoversFrom 1 ids sim.chat_log sim.snapshots)
      (run thousandths counter outside config environments)
run-covers_example = run-covers thousandths counter outside config environments (λ n ids id h. h)
