-- ===== src/Engine/Types.antt =====
-- simswarm/types.py: what passes between the engine and its environments.
use sim_swarm.Prelude.{ℕ, Bool}
use sim_swarm.Prelude.Text.{Text}

-- The part of `Agent` that the environments read.
pub record Agent : Type 0 where
  pub id : Text
  pub name : Text

-- `ActionResult`, with the `data` of one environment.
pub record ActionResult (Data : Type 0) : Type 0 where
  pub success : Bool
  pub payload : Data

-- `Event`, with the `data` of one environment.
pub record Event (Data : Type 0) : Type 0 where
  pub source : Text
  pub type : Text
  pub payload : Data
  pub round : ℕ
