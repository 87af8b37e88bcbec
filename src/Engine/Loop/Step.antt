-- ===== src/Engine/Loop/Step.antt =====
-- simswarm/engine.py: what the agents are shown in a round, and their steps.
use sim_swarm.Prelude.{
  ℕ, Bool, true, false, List, [], ◌∷◌, ◌++◌, Option, none, some, if◌then◌else◌, get_or, map, any,
}
use sim_swarm.Prelude.Text.{Text, codes, text_eq, is_empty}
use sim_swarm.Prelude.Dict.{Dict, text_Eq, lookup, insert}
use sim_swarm.Engine.Types.{Agent}
use sim_swarm.Engine.Value.{Payload, ActionRecord, Observation}
use sim_swarm.Engine.Bridge.{Bridge, join_lines, get_digest}
use sim_swarm.Engine.Loop.State.{
  Environment, Participant, SimulationConfig, Call, Outside, remember, Stepped, first_or_unknown,
}

module _ {N S : Type 0} (env : Environment S) (out : Outside N) (config : SimulationConfig) where
  -- The loop over an agent's environments in the first phase of a round.
  unfoldable pub observe : Agent → List Text → Dict Text S → List Observation × Dict Text S
  observe agent [] envs = ([], envs)
  observe agent (name ∷ names) envs = elim (lookup name envs) [
    | none ↦ observe agent names envs
    | some s ↦
        let (content, s2) = env.get_observations agent s in
        let (rest, envs2) = observe agent names (insert name s2 envs) in
        (record { environment = name; content = content } ∷ rest, envs2)
  ]

  abbrev scenario_lines : Payload → List Text
  scenario_lines variables = map (λ x. codes "  " ++ x.0 ++ codes ": " ++ out.py.str x.1) variables

  -- What an agent is shown besides its environments: the digest, and the scenario's variables.
  unfoldable pub shown_extras : List Text → Bridge → List Observation
  shown_extras names bridge =
      let digest = get_digest out.py names bridge in
      (if is_empty digest
        then []
        else record { environment = codes "bridge"; content = digest } ∷ [])
      ++ (if is_empty config.variables
          then []
          else record {
            environment = codes "scenario";
            content =
                codes "Current scenario variables:"
                ++ 10 ∷ join_lines (scenario_lines config.variables);
          }
            ∷ [])

  -- The first phase of a round: `agent_observations`.
  unfoldable pub observe_all :
      Dict Text (Participant N) → Bridge → Dict Text S → Dict Text (List Observation) × Dict Text S
  observe_all [] bridge envs = ([], envs)
  observe_all ((id, p) ∷ agents) bridge envs =
      let (obs, envs2) = observe p.agent p.environments envs in
      let (rest, envs3) = observe_all agents bridge envs2 in
      ((id, obs ++ shown_extras p.environments bridge) ∷ rest, envs3)

  -- The loop of `_find_env_for_action`.
  unfoldable pub find_env_for_action : Text → List Text → List Text → Dict Text S → Text
  find_env_for_action action_name [] all envs = first_or_unknown all
  find_env_for_action action_name (name ∷ names) all envs =
      let rest = find_env_for_action action_name names all envs in
      elim (lookup name envs) [
        | none ↦ rest
        | some s ↦ if any (text_eq action_name) (env.tool_names s) then name else rest
      ]

  -- `dict(result.data) if result and result.data else None`
  abbrev result_data : Payload → Option Payload
  result_data [] = none
  result_data (x ∷ payload) = some (x ∷ payload)

  -- One tool call: its outcome, and the environments after it; `none` where it raises.
  unfoldable pub execute :
      Agent → Text → Call → Dict Text S → Option (Bool × Option Payload × Dict Text S)
  execute agent target call envs = elim (lookup target envs) [
    | none ↦ some (false, none, envs)
    | some s ↦ elim (env.execute_action agent call.name call.args s) [
      | none ↦ none
      | some r ↦ some (r.0.success, result_data r.0.payload, insert target r.1 envs)
    ]
  ]

  -- The record of a tool call.
  abbrev pub call_record : ℕ → Participant N → Text → Call → Bool → Option Payload → ActionRecord
  call_record round_num p target call ok result = record {
    round_num = round_num;
    agent_id = p.agent.id;
    agent_name = p.agent.name;
    action_type = call.name;
    platform = target;
    action_args = call.args;
    success = ok;
    action_result = result;
  }

  -- The agent after a tool call, which it remembers.
  abbrev pub remembering : ℕ → Participant N → Call → Participant N
  remembering round_num p call = record p {
    memory = remember config.max_memory_rounds (out.memory_line round_num call) p.memory;
  }

  -- The loop over the tool calls in `step_agent`.
  unfoldable pub perform :
      ℕ
      → Participant N
      → List Call
      → Dict Text S
      → Option (List ActionRecord × Participant N × Dict Text S)
  perform round_num p [] envs = some ([], p, envs)
  perform round_num p (call ∷ calls) envs =
      let target = find_env_for_action call.name p.environments p.environments envs in
      elim (execute p.agent target call envs) [
        | none ↦ none
        | some done ↦ elim (perform round_num (remembering round_num p call) calls done.2) [
          | none ↦ none
          | some rest ↦
              some (call_record round_num p target call done.0 done.1 ∷ rest.0, rest.1, rest.2)
        ]
      ]

  abbrev idle_record : ℕ → Participant N → ActionRecord
  idle_record round_num p = record {
    round_num = round_num;
    agent_id = p.agent.id;
    agent_name = p.agent.name;
    action_type = codes "do_nothing";
    platform = first_or_unknown p.environments;
    action_args = [];
    success = true;
    action_result = none;
  }

  -- `step_agent` after the model's answer.
  unfoldable pub step_answered :
      ℕ
      → Participant N
      → List Call
      → Dict Text S
      → Option (List ActionRecord × Participant N × Dict Text S)
  step_answered round_num p [] envs = some (idle_record round_num p ∷ [], p, envs)
  step_answered round_num p (call ∷ calls) envs = perform round_num p (call ∷ calls) envs

  -- The step of an agent; `none` when the model's call or a tool call raises.
  unfoldable pub step_agent :
      ℕ
      → Participant N
      → List Observation
      → Dict Text S
      → Option (List ActionRecord × Participant N × Dict Text S)
  step_agent round_num p obs envs = elim (out.chat round_num p obs) [
    | none ↦ none
    | some calls ↦ step_answered round_num p calls envs
  ]

  -- The steps of a round in the order in which they finish; `none` when one of them raises.
  unfoldable pub step_all :
      ℕ
      → List Text
      → Dict Text (Participant N)
      → Dict Text (List Observation)
      → Dict Text S
      → Option (Dict Text (Stepped N) × Dict Text S)
  step_all round_num [] agents seen envs = some ([], envs)
  step_all round_num (id ∷ ids) agents seen envs = elim (lookup id agents) [
    | none ↦ step_all round_num ids agents seen envs
    | some p ↦ elim (step_agent round_num p (get_or (lookup id seen) []) envs) [
      | none ↦ none
      | some s ↦ elim (step_all round_num ids agents seen s.2) [
        | none ↦ none
        | some r ↦ some ((id, (s.0, s.1)) ∷ r.0, r.1)
      ]
    ]
  ]
