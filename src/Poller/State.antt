-- ===== src/Poller/State.antt =====
-- saas/jobs/pipeline.py: what `poll_until_complete` keeps between two polls, what a poll brings, and
-- what the loop does to the outside. Times are whole seconds of `time.monotonic`; a rate per minute
-- is counted in tenths, and the two divisions are multiplied out.
use sim_swarm.Prelude.{ℕ, ◌/◌, Bool, false, List, [], ◌∷◌, Option, none, some, max, get_or}
use sim_swarm.Prelude.Text.{Text, codes}
use sim_swarm.Prelude.Dict.{text_Eq, Dict, lookup}
use sim_swarm.Poller.Logs.{Live}

-- saas/constants/tiers.py
abbrev pub tier_stuck_threshold_s : Dict Text ℕ
tier_stuck_threshold_s = (codes "small", 300) ∷ (codes "medium", 600) ∷ (codes "large", 900) ∷ []

-- `TIER_MIN_ROUNDS_PER_MIN`, in tenths.
abbrev pub tier_min_rounds_per_min : Dict Text ℕ
tier_min_rounds_per_min = (codes "small", 3) ∷ (codes "medium", 3) ∷ (codes "large", 4) ∷ []

abbrev pub max_consecutive_poll_failures : ℕ
max_consecutive_poll_failures = 30

abbrev pub llm_circuit_breaker_window_s : ℕ
llm_circuit_breaker_window_s = 60

abbrev pub llm_circuit_breaker_min_samples : ℕ
llm_circuit_breaker_min_samples = 10

abbrev pub slow_pod_window_s : ℕ
slow_pod_window_s = 1200

abbrev pub slow_pod_min_round_delta : ℕ
slow_pod_min_round_delta = 4

abbrev pub heartbeat_interval_s : ℕ
heartbeat_interval_s = 60

abbrev pub poll_interval : ℕ
poll_interval = 10

-- The configuration, and which callbacks the caller gave.
pub record Config : Type 0 where
  pub timeout_seconds : ℕ
  pub tier : Option Text
  pub max_rounds : Option ℕ
  pub has_stage_callback : Bool
  pub has_heartbeat_callback : Bool
  pub has_status_callback : Bool

abbrev of_tier : Option Text → Dict Text ℕ → ℕ → ℕ
of_tier none table default = default
of_tier (some tier) table default = get_or (lookup tier table) default

unfoldable pub max_polls : Config → ℕ
max_polls c = max 360 (c.timeout_seconds / poll_interval)

unfoldable pub stuck_threshold_s : Config → ℕ
stuck_threshold_s c = of_tier c.tier tier_stuck_threshold_s 600

unfoldable pub min_rounds_per_min : Config → ℕ
min_rounds_per_min c = of_tier c.tier tier_min_rounds_per_min 3

-- The answer of `/status`; an absent field has its default.
pub record Status : Type 0 where
  pub status : Text
  pub error : Text
  pub report : Text
  pub chat_log : Text
  pub graph_data : Text
  pub structured : Text
  pub sim_data_uploaded : Bool

-- The answer of `/partial_chat`.
pub data Chat : Type 0 where
  messages : List Text → Chat
  not_ok no_answer : Chat

-- What one poll finds: `none` where `/status` gives no answer; no lines where `/logs` fails.
pub record Poll : Type 0 where
  pub status : Option Status
  pub now : ℕ
  pub log_lines : List Text
  pub chat : Chat

-- (time, error lines, LLM lines)
abbrev pub Sample : Type 0
Sample = ℕ × ℕ × ℕ

pub record State : Type 0 where
  pub last_stage : Option ℕ
  pub last_heartbeat_time : ℕ
  pub last_round : Option ℕ
  pub last_round_progress_at : ℕ
  pub last_log_lines : List Text
  pub last_chat_count : ℕ
  pub running_fired : Bool
  pub consecutive_failures : ℕ
  pub llm_samples : List Sample
  pub round_samples : List (ℕ × ℕ)

unfoldable pub start : ℕ → State
start poll_start = record {
  last_stage = none;
  last_heartbeat_time = 0;
  last_round = none;
  last_round_progress_at = poll_start;
  last_log_lines = [];
  last_chat_count = 0;
  running_fired = false;
  consecutive_failures = 0;
  llm_samples = [];
  round_samples = [];
}

-- A call of a callback or of `_update_live_status_sync`, whose failures are all swallowed.
pub data Call : Type 0 where
  heartbeat set_running : Call
  stage : ℕ → Call
  write_live : Live → Call

-- Why the loop raises.
pub data Error : Type 0 where
  pod_unreachable stuck llm_circuit_broken slow_pod timed_out : Error
  worker_failed : Text → Error

-- What a poll, or a part of it, comes to.
pub data Turn : Type 0 where
  next : State → List Call → Turn
  done : Status → List Call → Turn
  raises : Error → List Call → Turn
