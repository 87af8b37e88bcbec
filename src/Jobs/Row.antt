-- ===== src/Jobs/Row.antt =====
-- saas/jobs/models.py: the states of a job and the columns of its row. Texts and JSON documents are
-- code points, times are numbers of seconds, and a nullable column is an `Option`.
use sim_swarm.Prelude.{ℕ, Bool, false, List, [], ◌∷◌, Option, ◌||◌, ◌==◌}
use sim_swarm.Prelude.Text.{Text}

pub data JobStatus : Type 0 where
  draft pending provisioning running reporting completed failed refunded : JobStatus

abbrev pub ordinal : JobStatus → ℕ
ordinal draft = 0
ordinal pending = 1
ordinal provisioning = 2
ordinal running = 3
ordinal reporting = 4
ordinal completed = 5
ordinal failed = 6
ordinal refunded = 7

-- `status = s`
abbrev pub status_eq : JobStatus → JobStatus → Bool
status_eq s t = ordinal s == ordinal t

-- `status IN (...)`
abbrev pub status_in : JobStatus → List JobStatus → Bool
status_in s [] = false
status_in s (t ∷ ts) = status_eq s t || status_in s ts

-- `SimulationJob`
pub record Job : Type 0 where
  pub id : ℕ
  pub user_id : Text
  pub seed_text : Text
  pub goal : Option Text
  pub tier : Option Text
  pub status : JobStatus
  pub pipeline_stage : Option ℕ
  pub result_report : Option Text
  pub result_chat_log : Option Text
  pub result_graph : Option Text
  pub error_message : Option Text
  pub gpu_provider : Option Text
  pub created_at : ℕ
  pub completed_at : Option ℕ
  pub pod_id : Option Text
  pub workflow_id : Option Text
  pub workflow_run_id : Option Text
  pub retry_count : ℕ
  pub provision_seconds : Option ℕ
  pub pipeline_seconds : Option ℕ
  pub key_insight : Option Text
  pub share_token : Option Text
  pub result_structured : Option Text
  pub last_heartbeat : Option ℕ
  pub retry_of : Option ℕ
  pub enrich_web : Bool
  pub enriched_seed : Option Text
  pub enrichment_citations : Option Text
  pub forecast_days : Option ℕ
  pub sim_data_available : Bool
  pub live_status : Option Text
  pub markets_config : Option Text

-- `ModelRouting`
pub record ModelRouting : Type 0 where
  pub sim_tier : Text
  pub model_id : Text
  pub gpu_type : Text
  pub max_rounds : ℕ
  pub vllm_args : Option Text
  pub target_agents : ℕ
