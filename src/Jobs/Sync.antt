-- ===== src/Jobs/Sync.antt =====
-- saas/jobs/persistence_sync.py: the lifecycle writes of Celery tasks and Temporal activities.
use sim_swarm.Prelude.{ℕ, List, [], ◌∷◌, Option, none, some, ◌==◌, ◌&&◌, not, if◌then◌else◌, take}
use sim_swarm.Prelude.Text.{Text, codes, text_eq, is_empty}
use sim_swarm.Jobs.Row.{
  Job, JobStatus, ModelRouting, provisioning, running, reporting, completed, failed, refunded,
  status_eq, status_in,
}
use sim_swarm.Jobs.Store.{
  Table, Link, unset, broken, up, Outcome, ok, raised, swallow, strict, update_where, find_job,
}

-- `_mark_job_failed_sync`
unfoldable pub mark_job_failed_sync : ℕ → Text → ℕ → Link → Table → Table
mark_job_failed_sync job_id error_message now link = swallow link (
    update_where (λ j. j.id == job_id && not (status_in j.status (completed ∷ refunded ∷ [])))
      (λ j. record j {
        status = failed;
        error_message = some (take 4096 error_message);
        completed_at = some now;
      }))

-- `_save_job_results`
unfoldable pub save_job_results :
    ℕ → Text → Text → Text → Option Text → Option Text → Link → Table → Table
save_job_results job_id report chat_log graph_data key_insight structured link = swallow link (
    update_where
      (λ j. j.id == job_id && not (status_in j.status (completed ∷ failed ∷ refunded ∷ [])))
      (λ j. record j {
        result_report = some report;
        result_chat_log = some chat_log;
        result_graph = some graph_data;
        key_insight = key_insight;
        result_structured = structured;
      }))

-- `_update_job_retry_sync`
unfoldable pub update_job_retry_sync : ℕ → ℕ → Link → Table → Table
update_job_retry_sync job_id retry_count link = swallow link (
    update_where (λ j. j.id == job_id)
      (λ j. record j { retry_count = retry_count; status = provisioning }))

-- `x or y` on a nullable text.
abbrev or_text : Option Text → Text → Text
or_text none d = d
or_text (some s) d = if is_empty s then d else s

-- `n or d` on a nullable number.
abbrev or_number : Option ℕ → ℕ → ℕ
or_number none d = d
or_number (some n) d = if n == 0 then d else n

pub record ResumeConfig (Urls : Type 0) : Type 0 where
  pub seed_text : Text
  pub goal : Text
  pub max_rounds : ℕ
  pub forecast_days : Option ℕ
  pub target_agents : ℕ
  pub upload_urls : Urls
  pub markets_config : Option Text

-- `LEFT JOIN model_routing m ON m.sim_tier = j.tier`
abbrev pub join_routing : Option Text → List ModelRouting → Option ModelRouting
join_routing none routes = none
join_routing (some tier) [] = none
join_routing (some tier) (m ∷ routes) =
    if text_eq m.sim_tier tier then some m else join_routing (some tier) routes

-- The configuration that one row gives; `upload_urls` are those that MinIO signed for it.
unfoldable pub resume_config :
    {Urls : Type 0} → Urls → Job → Option ModelRouting → ResumeConfig Urls
resume_config urls j route = record {
  seed_text = or_text j.enriched_seed j.seed_text;
  goal = or_text j.goal [];
  max_rounds = or_number (elim route [ none ↦ none | some m ↦ some m.max_rounds ]) 15;
  forecast_days = j.forecast_days;
  target_agents = or_number (elim route [ none ↦ none | some m ↦ some m.target_agents ]) 5;
  upload_urls = urls;
  markets_config = j.markets_config;
}

-- `_get_job_config_for_resume`; `generate_upload_urls` is the MinIO client's, `none` if it raises.
unfoldable pub get_job_config_for_resume :
    {Urls : Type 0} (generate_upload_urls : ℕ → Option Urls)
    → ℕ
    → List ModelRouting
    → Link
    → Table
    → Option (ResumeConfig Urls)
unfolding find_job resume_config
get_job_config_for_resume generate_upload_urls job_id routes unset t = none
get_job_config_for_resume generate_upload_urls job_id routes broken t = none
get_job_config_for_resume generate_upload_urls job_id routes up t = elim (find_job job_id t) [
  | none ↦ none
  | some j ↦ elim (generate_upload_urls job_id) [
    | none ↦ none
    | some urls ↦ some (resume_config urls j (join_routing j.tier routes))
  ]
]

-- `_get_job_status`
unfoldable pub get_job_status : ℕ → Link → Table → Outcome (Option JobStatus)
get_job_status job_id unset t = ok none
get_job_status job_id broken t = raised
get_job_status job_id up t = elim (find_job job_id t) [
  | none ↦ ok none
  | some j ↦ ok (some j.status)
]

-- `_transition_to_reporting`
unfoldable pub transition_to_reporting : ℕ → Link → Table → Outcome Table
transition_to_reporting job_id link = strict link (
    update_where (λ j. j.id == job_id && status_in j.status (running ∷ provisioning ∷ []))
      (λ j. record j { status = reporting }))

-- `_load_job_artifacts`
unfoldable pub load_job_artifacts : ℕ → Link → Table → Outcome (Text × Text)
load_job_artifacts job_id unset t = ok (codes "[]", codes "{}")
load_job_artifacts job_id broken t = raised
load_job_artifacts job_id up t = elim (find_job job_id t) [
  | none ↦ ok (codes "[]", codes "{}")
  | some j ↦ ok (or_text j.result_chat_log (codes "[]"), or_text j.result_graph (codes "{}"))
]

-- `_save_report_result`
unfoldable pub save_report_result : ℕ → Text → Text → Option Text → ℕ → Link → Table → Outcome Table
save_report_result job_id report_markdown structured key_insight now link = strict link (
    update_where (λ j. j.id == job_id && status_eq j.status reporting)
      (λ j. record j {
        result_report = some report_markdown;
        result_structured = some structured;
        key_insight = key_insight;
        status = completed;
        completed_at = some now;
      }))
