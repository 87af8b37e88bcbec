-- ===== src/Jobs/Writer.antt =====
-- Every write to the table as one call, and a history as a sequence of calls, each with the state of
-- the database link that it meets: any interleaving of the API, Celery and Temporal processes.
use sim_swarm.Prelude.{ℕ, Bool, List, [], ◌∷◌, Option}
use sim_swarm.Prelude.Text.{Text}
use sim_swarm.Jobs.Store.{Table, Link, table_after}
use sim_swarm.Jobs.Sync.{
  mark_job_failed_sync, save_job_results, update_job_retry_sync, transition_to_reporting,
  save_report_result,
}
use sim_swarm.Jobs.Progress.{
  update_pipeline_stage_sync, update_heartbeat_sync, update_live_status_sync, update_pod_id,
  clear_pod_id, update_sim_data_available, update_enrichment_sync, update_markets_config_sync,
  transition_to_running,
}
use sim_swarm.Jobs.Async.{
  mark_job_failed, update_pipeline_stage, async_update_pod_id, update_job_metadata,
  update_heartbeat, update_enrichment, update_job_retry,
}

pub data Write : Type 0 where
  fail_sync : ℕ → Text → ℕ → Write
  save_results : ℕ → Text → Text → Text → Option Text → Option Text → Write
  retry_sync : ℕ → ℕ → Write
  to_reporting : ℕ → Write
  save_report : ℕ → Text → Text → Option Text → ℕ → Write
  stage_sync : ℕ → ℕ → Write
  heartbeat_sync : ℕ → ℕ → Write
  live_sync : ℕ → Text → Write
  pod_sync : ℕ → Text → Text → Write
  clear_pod : ℕ → Write
  data_available : ℕ → Bool → Write
  enrichment_sync : ℕ → Text → Text → Write
  markets_sync : ℕ → Option Text → Write
  to_running : ℕ → Write
  fail_async : ℕ → Text → ℕ → Write
  stage_async : ℕ → ℕ → Write
  pod_async : ℕ → Text → Text → Write
  metadata_async : ℕ → Text → Option ℕ → Option ℕ → Write
  heartbeat_async : ℕ → ℕ → Write
  enrichment_async : ℕ → Text → Text → Write
  retry_async : ℕ → ℕ → Write

-- The job that a call names.
abbrev pub target : Write → ℕ
target (fail_sync i e n) = i
target (save_results i r c g k s) = i
target (retry_sync i n) = i
target (to_reporting i) = i
target (save_report i r s k n) = i
target (stage_sync i s) = i
target (heartbeat_sync i n) = i
target (live_sync i l) = i
target (pod_sync i p g) = i
target (clear_pod i) = i
target (data_available i b) = i
target (enrichment_sync i e c) = i
target (markets_sync i m) = i
target (to_running i) = i
target (fail_async i e n) = i
target (stage_async i s) = i
target (pod_async i p g) = i
target (metadata_async i p a b) = i
target (heartbeat_async i n) = i
target (enrichment_async i e c) = i
target (retry_async i n) = i

unfoldable pub perform : Write → Link → Table → Table
perform (fail_sync i e n) l t = mark_job_failed_sync i e n l t
perform (save_results i r c g k s) l t = save_job_results i r c g k s l t
perform (retry_sync i n) l t = update_job_retry_sync i n l t
perform (to_reporting i) l t = table_after t (transition_to_reporting i l t)
perform (save_report i r s k n) l t = table_after t (save_report_result i r s k n l t)
perform (stage_sync i s) l t = update_pipeline_stage_sync i s l t
perform (heartbeat_sync i n) l t = update_heartbeat_sync i n l t
perform (live_sync i s) l t = update_live_status_sync i s l t
perform (pod_sync i p g) l t = update_pod_id i p g l t
perform (clear_pod i) l t = clear_pod_id i l t
perform (data_available i b) l t = update_sim_data_available i b l t
perform (enrichment_sync i e c) l t = update_enrichment_sync i e c l t
perform (markets_sync i m) l t = update_markets_config_sync i m l t
perform (to_running i) l t = transition_to_running i l t
perform (fail_async i e n) l t = mark_job_failed i e n l t
perform (stage_async i s) l t = update_pipeline_stage i s l t
perform (pod_async i p g) l t = async_update_pod_id i p g l t
perform (metadata_async i p a b) l t = update_job_metadata i p a b l t
perform (heartbeat_async i n) l t = update_heartbeat i n l t
perform (enrichment_async i e c) l t = update_enrichment i e c l t
perform (retry_async i n) l t = update_job_retry i n l t

unfoldable pub perform_all : List (Write × Link) → Table → Table
perform_all [] t = t
perform_all ((w, l) ∷ ws) t = perform_all ws (perform w l t)
