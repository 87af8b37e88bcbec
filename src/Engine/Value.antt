-- ===== src/Engine/Value.antt =====
-- JSON values as the engine meets them in tool calls, results and events, and the records of
-- simswarm/types.py that hold them.
use sim_swarm.Prelude.{ℕ, Bool, false, ◌==◌, not, Option}
use sim_swarm.Prelude.Int.{ℤ, pos, negsuc}
use sim_swarm.Prelude.Text.{Text, is_empty}
use sim_swarm.Prelude.Dict.{Dict}

-- A string, an `int`, or any other value, of which the code uses its truth and its `str`.
pub data Value : Type 0 where
  text : Text → Value
  whole : ℤ → Value
  opaque : Bool → Text → Value

abbrev is_zero : ℤ → Bool
is_zero (pos n) = n == 0
is_zero (negsuc n) = false

-- `bool(value)`
abbrev pub truthy : Value → Bool
truthy (text t) = not (is_empty t)
truthy (whole n) = not (is_zero n)
truthy (opaque b t) = b

abbrev pub Payload : Type 0
Payload = Dict Text Value

-- `ActionRecord`
pub record ActionRecord : Type 0 where
  pub round_num : ℕ
  pub agent_id : Text
  pub agent_name : Text
  pub action_type : Text
  pub platform : Text
  pub action_args : Payload
  pub success : Bool
  pub action_result : Option Payload

-- `Entity`, as far as it is read.
pub record Entity : Type 0 where
  pub id : Text
  pub name : Text
  pub type : Text
  pub summary : Text

-- `ScheduledEvent`
pub record ScheduledEvent : Type 0 where
  pub round : ℕ
  pub type : Text
  pub payload : Payload

-- `Observation`
pub record Observation : Type 0 where
  pub environment : Text
  pub content : Text
