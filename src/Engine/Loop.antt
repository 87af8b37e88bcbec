-- ===== src/Engine/Loop.antt =====
-- simswarm/engine.py: `Engine.run`. An environment is an interface, a record of operations; a model's
-- answers, the order in which the agents of a round finish, and how Python prints are parameters. The
-- steps of a round run one after another in that order: `step_agent` gives way only before its first
-- action. Progress callbacks are left out.
pub mod State
pub mod Step
pub mod Rounds
pub mod Environments
pub mod Agents
pub mod Digests
pub mod Coverage
pub mod Snapshots
mod Tests
