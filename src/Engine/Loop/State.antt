-- ===== src/Engine/Loop/State.antt =====
-- simswarm/engine.py: what `run` reads and keeps, and the agents that it creates.
use sim_swarm.Prelude.{ℕ, List, [], ◌∷◌, ◌++◌, Option, ltb, ◌==◌, if◌then◌else◌, length, take_last}
use sim_swarm.Prelude.Text.{Text, codes}
use sim_swarm.Prelude.Dict.{Dict, text_Eq, insert}
use sim_swarm.Engine.Types.{Agent, ActionResult, Event}
use sim_swarm.Engine.Value.{Payload, ActionRecord, Entity, ScheduledEvent, Observation}
use sim_swarm.Engine.Bridge.{Printing, Bridge}
use sim_swarm.Engine.Belief.{BeliefState}
use sim_swarm.Engine.Belief.Round.{Scoring}

-- simswarm/environments/base.py: `Environment`, with the names of the tools, and with no engagement
-- where an environment has no `current_engagement`. `execute_action` is none where it raises, as on
-- arguments of a type that a tool does not take; the other operations take nothing of the model's.
pub record Environment (S : Type 0) : Type 0 where
  pub get_observations : Agent → S → Text × S
  pub tool_names : S → List Text
  pub execute_action : Agent → Text → Payload → S → Option (ActionResult Payload × S)
  pub tick : S → S
  pub publish_events : S → List (Event Payload) × S
  pub current_engagement : S → Dict Text (ℕ × ℕ)

-- `Agent`
pub record Participant (N : Type 0) : Type 0 where
  pub agent : Agent
  pub persona : Text
  pub environments : List Text
  pub memory : List Text
  pub beliefs : BeliefState N

-- `SimulationConfig` and `EngineConfig`, as far as `run` reads them.
pub record SimulationConfig : Type 0 where
  pub goal : Text
  pub entities : List Entity
  pub rounds : ℕ
  pub variables : Payload
  pub scheduled_events : List ScheduledEvent
  pub max_memory_rounds : ℕ

-- A tool call of a model's answer.
pub record Call : Type 0 where
  pub name : Text
  pub args : Payload

-- The variables of `run`. `shown` is what the agents were shown in each round.
pub record Sim (N S : Type 0) : Type 0 where
  pub environments : Dict Text S
  pub agents : Dict Text (Participant N)
  pub bridge : Bridge
  pub chat_log : List ActionRecord
  pub snapshots : List (ℕ × ℕ)
  pub shown : List (Dict Text (List Observation))

-- What lies outside the engine.
pub record Outside (N : Type 0) : Type 0 where
  pub py : Printing
  pub scoring : Scoring N
  pub listed : List Text → List Text
  pub chat : ℕ → Participant N → List Observation → Option (List Call)
  pub finish_order : ℕ → List Text → List Text
  pub memory_line : ℕ → Call → Text

abbrev pub first_or_unknown : List Text → Text
first_or_unknown [] = codes "unknown"
first_or_unknown (name ∷ names) = name

-- The agent that `_create_agents` makes of an entity.
abbrev pub participant : {N : Type 0} → List Text → Entity → Participant N
participant names e = record {
  agent = record { id = e.id; name = e.name };
  persona = codes "You are " ++ e.name ++ codes ". " ++ e.summary;
  environments = names;
  memory = [];
  beliefs = record { positions = []; confidence = []; trust = []; exposure_history = [] };
}

-- The loop of `_create_agents`.
unfoldable pub create_agents :
    {N : Type 0} → List Entity → List Text → Dict Text (Participant N) → Dict Text (Participant N)
create_agents [] names agents = agents
create_agents (e ∷ entities) names agents =
    create_agents entities names (insert e.id (participant names e) agents)

-- `agent.memory = agent.memory[-cap:]`, where `[-0:]` is the whole list.
unfoldable pub remember : ℕ → Text → List Text → List Text
remember cap line memory =
    let longer = memory ++ line ∷ [] in
    if ltb cap (length longer) then (if cap == 0 then longer else take_last cap longer) else longer

-- `likes_lookup.update(...)`
abbrev pub update_all {ℓ} : {V : Type ℓ} → Dict Text V → Dict Text V → Dict Text V
update_all [] d = d
update_all ((k, v) ∷ more) d = update_all more (insert k v d)

-- `chat_log.extend(records)` for all results.
abbrev pub concat {ℓ} : {A : Type ℓ} → List (List A) → List A
concat [] = []
concat (xs ∷ xss) = xs ++ concat xss

-- The records of an agent's step, and the agent after it.
abbrev pub Stepped : Type 0 → Type 0
Stepped N = List ActionRecord × Participant N
