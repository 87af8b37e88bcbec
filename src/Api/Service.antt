-- ===== src/Api/Service.antt =====
-- saas/jobs/api.py and api_draft.py: what the handlers read and change. A handler runs as one step. An
-- `HTTPException` is its status code. The keys of the language models and the presigned URLs, which a
-- workflow is started with, are left out.
use sim_swarm.Prelude.{ℕ, Bool, false, List, [], ◌∷◌, Option, none, some, if◌then◌else◌}
use sim_swarm.Prelude.Text.{Text, text_eq}
use sim_swarm.Jobs.Row.{Job, JobStatus, ModelRouting}
use sim_swarm.Jobs.Store.{Table, find_job}

pub data Reply {ℓ} (A : Type ℓ) : Type ℓ where
  done : A → Reply A
  refused : ℕ → Reply A

-- `SimParams`, as the handlers fill it.
pub record Launch : Type 0 where
  pub job_id : ℕ
  pub user_id : Text
  pub seed_text : Text
  pub goal : Text
  pub tier : Text
  pub model_id : Text
  pub gpu_type : Text
  pub max_rounds : ℕ
  pub vllm_args : Text
  pub enrich_web : Bool
  pub forecast_days : ℕ
  pub target_agents : ℕ

-- The settings, the clock, the table of routes, and Temporal: the ids of the workflow that is started,
-- or none where that raises.
pub record Server : Type 0 where
  pub demo_mode : Bool
  pub max_seed_chars : ℕ
  pub now : ℕ
  pub routes : List ModelRouting
  pub start_workflow : Launch → Option (Text × Text)

-- The rows, the sequence that gives ids, and the workflows that were started. A rollback does not take
-- an id back.
pub record Service : Type 0 where
  pub table : Table
  pub next_id : ℕ
  pub started : List Launch

-- `select(ModelRouting).where(sim_tier == tier)`, where tiers are unique.
unfoldable pub find_route : Text → List ModelRouting → Option ModelRouting
find_route tier [] = none
find_route tier (r ∷ routes) = if text_eq r.sim_tier tier then some r else find_route tier routes

-- A new row, with the defaults of the columns.
abbrev pub new_job :
    ℕ → Text → Text → Option Text → Option Text → JobStatus → Bool → Option ℕ → ℕ → Job
new_job id user_id seed_text goal tier status enrich_web forecast_days now = record {
  id = id;
  user_id = user_id;
  seed_text = seed_text;
  goal = goal;
  tier = tier;
  status = status;
  pipeline_stage = none;
  result_report = none;
  result_chat_log = none;
  result_graph = none;
  error_message = none;
  gpu_provider = none;
  created_at = now;
  completed_at = none;
  pod_id = none;
  workflow_id = none;
  workflow_run_id = none;
  retry_count = 0;
  provision_seconds = none;
  pipeline_seconds = none;
  key_insight = none;
  share_token = none;
  result_structured = none;
  last_heartbeat = none;
  retry_of = none;
  enrich_web = enrich_web;
  enriched_seed = none;
  enrichment_citations = none;
  forecast_days = forecast_days;
  sim_data_available = false;
  live_status = none;
  markets_config = none;
}

-- The row of an id, for its owner.
unfoldable pub owned : Text → ℕ → Table → Reply Job
owned user_id job_id t = elim (find_job job_id t) [
  | none ↦ refused 404
  | some job ↦ if text_eq job.user_id user_id then done job else refused 403
]
