-- ===== src/Jobs/Async.antt =====
-- saas/jobs/persistence_async.py: the writes of asynchronous callers. Their session factory is None
-- where the database is not configured; every one logs a failed statement and returns.
use sim_swarm.Prelude.{ℕ, [], ◌∷◌, Option, some, ◌==◌, ◌&&◌, not, if◌then◌else◌, take, leb}
use sim_swarm.Prelude.Text.{Text}
use sim_swarm.Jobs.Row.{provisioning, running, completed, failed, refunded, status_in}
use sim_swarm.Jobs.Store.{Table, Link, swallow, update_where}

-- `_mark_job_failed`
unfoldable pub mark_job_failed : ℕ → Text → ℕ → Link → Table → Table
mark_job_failed job_id error_message now link = swallow link (
    update_where (λ j. j.id == job_id && not (status_in j.status (completed ∷ refunded ∷ [])))
      (λ j. record j {
        status = failed;
        error_message = some (take 4096 error_message);
        completed_at = some now;
      }))

-- `_async_update_pipeline_stage`, and `_update_pipeline_stage`, which runs it.
unfoldable pub update_pipeline_stage : ℕ → ℕ → Link → Table → Table
update_pipeline_stage job_id stage link = swallow link (
    if leb 1 stage
    then update_where (λ j. j.id == job_id)
        (λ j. record j { pipeline_stage = some stage; status = running })
    else update_where (λ j. j.id == job_id) (λ j. record j { pipeline_stage = some stage }))

-- `_async_update_pod_id`
unfoldable pub async_update_pod_id : ℕ → Text → Text → Link → Table → Table
async_update_pod_id job_id pod_id gpu_provider link = swallow link (
    update_where (λ j. j.id == job_id)
      (λ j. record j {
        pod_id = some pod_id;
        gpu_provider = some gpu_provider;
        status = provisioning;
      }))

-- `_update_job_metadata`
unfoldable pub update_job_metadata : ℕ → Text → Option ℕ → Option ℕ → Link → Table → Table
update_job_metadata job_id pod_id provision_seconds pipeline_seconds link = swallow link (
    update_where (λ j. j.id == job_id)
      (λ j. record j {
        pod_id = some pod_id;
        provision_seconds = provision_seconds;
        pipeline_seconds = pipeline_seconds;
      }))

-- `_async_update_heartbeat`, and `_update_heartbeat`, which runs it.
unfoldable pub update_heartbeat : ℕ → ℕ → Link → Table → Table
update_heartbeat job_id now link =
    swallow link (update_where (λ j. j.id == job_id) (λ j. record j { last_heartbeat = some now }))

-- `_update_enrichment`
unfoldable pub update_enrichment : ℕ → Text → Text → Link → Table → Table
update_enrichment job_id enriched_text citations_json link = swallow link (
    update_where (λ j. j.id == job_id)
      (λ j. record j {
        enriched_seed = some enriched_text;
        enrichment_citations = some citations_json;
      }))

-- `_update_job_retry`
unfoldable pub update_job_retry : ℕ → ℕ → Link → Table → Table
update_job_retry job_id retry_count link = swallow link (
    update_where (λ j. j.id == job_id)
      (λ j. record j { retry_count = retry_count; status = provisioning }))
