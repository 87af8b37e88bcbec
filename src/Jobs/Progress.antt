-- ===== src/Jobs/Progress.antt =====
-- saas/jobs/persistence_sync_progress.py and persistence_sync_idempotency.py: progress and metadata
-- writes, and the guards against a task that is delivered twice. Every one of them logs a failed
-- statement and returns.
use sim_swarm.Prelude.{ℕ, Bool, Option, none, some, ◌==◌, ◌&&◌, not}
use sim_swarm.Prelude.Text.{Text}
use sim_swarm.Jobs.Row.{JobStatus, provisioning, running, completed, status_eq}
use sim_swarm.Jobs.Store.{Table, Link, unset, broken, up, swallow, update_where, find_job}

-- `_update_pipeline_stage_sync`
unfoldable pub update_pipeline_stage_sync : ℕ → ℕ → Link → Table → Table
update_pipeline_stage_sync job_id stage link = swallow link (
    update_where (λ j. j.id == job_id && not (status_eq j.status completed))
      (λ j. record j { pipeline_stage = some stage; status = running }))

-- `_update_heartbeat_sync`; `now` is the database's clock.
unfoldable pub update_heartbeat_sync : ℕ → ℕ → Link → Table → Table
update_heartbeat_sync job_id now link =
    swallow link (update_where (λ j. j.id == job_id) (λ j. record j { last_heartbeat = some now }))

-- `_update_live_status_sync`
unfoldable pub update_live_status_sync : ℕ → Text → Link → Table → Table
update_live_status_sync job_id live_status link =
    swallow link
      (update_where (λ j. j.id == job_id) (λ j. record j { live_status = some live_status }))

-- `_update_pod_id`
unfoldable pub update_pod_id : ℕ → Text → Text → Link → Table → Table
update_pod_id job_id pod_id gpu_provider link = swallow link (
    update_where (λ j. j.id == job_id)
      (λ j. record j {
        pod_id = some pod_id;
        status = provisioning;
        gpu_provider = some gpu_provider;
      }))

-- `_clear_pod_id`
unfoldable pub clear_pod_id : ℕ → Link → Table → Table
clear_pod_id job_id link =
    swallow link (update_where (λ j. j.id == job_id) (λ j. record j { pod_id = none }))

-- `_update_sim_data_available`
unfoldable pub update_sim_data_available : ℕ → Bool → Link → Table → Table
update_sim_data_available job_id available link =
    swallow link
      (update_where (λ j. j.id == job_id) (λ j. record j { sim_data_available = available }))

-- `_update_enrichment_sync`
unfoldable pub update_enrichment_sync : ℕ → Text → Text → Link → Table → Table
update_enrichment_sync job_id enriched_text citations_json link = swallow link (
    update_where (λ j. j.id == job_id)
      (λ j. record j {
        enriched_seed = some enriched_text;
        enrichment_citations = some citations_json;
      }))

-- `_update_markets_config_sync`; `none` clears the column.
unfoldable pub update_markets_config_sync : ℕ → Option Text → Link → Table → Table
update_markets_config_sync job_id markets link =
    swallow link (update_where (λ j. j.id == job_id) (λ j. record j { markets_config = markets }))

-- `_load_job_snapshot`
unfoldable pub load_job_snapshot : ℕ → Link → Table → Option (JobStatus × Option Text × ℕ)
load_job_snapshot job_id unset t = none
load_job_snapshot job_id broken t = none
load_job_snapshot job_id up t = elim (find_job job_id t) [
  | none ↦ none
  | some j ↦ some (j.status, j.pod_id, j.retry_count)
]

-- `_transition_to_running`
unfoldable pub transition_to_running : ℕ → Link → Table → Table
transition_to_running job_id link = swallow link (
    update_where (λ j. j.id == job_id && status_eq j.status provisioning)
      (λ j. record j { status = running }))
