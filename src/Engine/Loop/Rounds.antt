-- ===== src/Engine/Loop/Rounds.antt =====
-- simswarm/engine.py: a round, the loop over the rounds, and `run`.
use sim_swarm.Prelude.{
  ℕ, zero, suc, ◌+◌, List, [], ◌∷◌, ◌++◌, Option, none, some, if◌then◌else◌, get_or, map, length,
  take,
}
use sim_swarm.Prelude.Text.{Text, codes, is_empty, strip}
use sim_swarm.Prelude.Dict.{Dict, text_Eq, lookup, keys}
use sim_swarm.Engine.Types.{Event}
use sim_swarm.Engine.Number.{Number}
use sim_swarm.Engine.Value.{Payload, ActionRecord, Observation}
use sim_swarm.Engine.Bridge.{Bridge, receive_events, inject_scheduled, clear}
use sim_swarm.Engine.Belief.Round.{apply_belief_updates}
use sim_swarm.Engine.Loop.State.{
  Environment, Participant, SimulationConfig, Sim, Outside, create_agents, update_all, concat,
  Stepped,
}
use sim_swarm.Engine.Loop.Step.{observe_all, step_all}

-- `asyncio.gather`: the results in the order of the agents.
unfoldable pub gather :
    {N : Type 0} → Dict Text (Participant N) → Dict Text (Stepped N) → Dict Text (Stepped N)
gather agents stepped = map (λ a. (a.0, get_or (lookup a.0 stepped) ([], a.1))) agents

module _ {N S : Type 0} (num : Number N) (env : Environment S) (out : Outside N)
    (config : SimulationConfig) where
  -- The loop that fills `likes_lookup`.
  unfoldable pub likes_of : Dict Text S → Dict Text (ℕ × ℕ) → Dict Text (ℕ × ℕ)
  likes_of [] likes = likes
  likes_of ((name, s) ∷ envs) likes = likes_of envs (update_all (env.current_engagement s) likes)

  -- `all_events`, and the environments without the events that they gave out.
  unfoldable pub publish_all : Dict Text S → List (Event Payload) × Dict Text S
  publish_all envs = (
    concat (map (λ e. (env.publish_events e.1).0) envs),
    map (λ e. (e.0, (env.publish_events e.1).1)) envs,
  )

  -- `(config.goal or "topic").strip()[:200] or "topic"`
  unfoldable pub belief_topic : Text
  belief_topic =
      let goal = take 200 (strip (if is_empty config.goal then codes "topic" else config.goal)) in
      if is_empty goal then codes "topic" else goal

  -- The beliefs of the agents after a round.
  unfoldable pub believe :
      Dict Text (Participant N) → List ActionRecord → Dict Text (ℕ × ℕ) → Dict Text (Participant N)
  believe agents records likes =
      let beliefs =
        apply_belief_updates num out.scoring out.listed (map (λ a. (a.0, a.1.beliefs)) agents)
          records belief_topic likes in
      map (λ a. (a.0, record (a.1) { beliefs = get_or (lookup a.0 beliefs) a.1.beliefs })) agents

  -- The rest of a round, from the results of the steps.
  unfoldable pub close_round :
      ℕ
      → Bridge
      → Dict Text (List Observation)
      → Dict Text (Stepped N)
      → Dict Text S
      → Sim N S
      → Sim N S
  close_round round_num bridge seen results envs sim =
      let records = concat (map (λ r. r.1.0) results) in
      let agents = believe (map (λ r. (r.0, r.1.1)) results) records (likes_of envs []) in
      let (all_events, envs2) = publish_all (map (λ e. (e.0, env.tick e.1)) envs) in
      let received = receive_events all_events bridge in
      record {
        environments = envs2;
        agents = agents;
        bridge = clear received;
        chat_log = sim.chat_log ++ records;
        snapshots = sim.snapshots ++ (round_num, length records) ∷ [];
        shown = sim.shown ++ seen ∷ [];
      }

  -- One turn of the loop over the rounds.
  unfoldable pub play_round : ℕ → Sim N S → Option (Sim N S)
  play_round round_num sim =
      let bridge = inject_scheduled config.scheduled_events round_num sim.bridge in
      let (seen, envs) = observe_all env out config sim.agents bridge sim.environments in
      elim (step_all env out config round_num (out.finish_order round_num (keys sim.agents))
        sim.agents seen envs) [
          | none ↦ none
          | some r ↦ some (close_round round_num bridge seen (gather sim.agents r.0) r.1 sim)
        ]

  -- The loop: rounds left, and the number of the next.
  unfoldable pub play_rounds : ℕ → ℕ → Sim N S → Option (Sim N S)
  play_rounds zero round_num sim = some sim
  play_rounds (suc left) round_num sim = elim (play_round round_num sim) [
    | none ↦ none
    | some sim2 ↦ play_rounds left (round_num + 1) sim2
  ]

  -- `run`, with the environments that `_create_environments` made.
  unfoldable pub run : Dict Text S → Option (Sim N S)
  run environments = play_rounds config.rounds 1 (record {
    environments = environments;
    agents = create_agents config.entities (keys environments) [];
    bridge = [];
    chat_log = [];
    snapshots = [];
    shown = [];
  })
