-- ===== src/Jobs/Tests.antt =====
-- The theorems on the job table at a table with two rows.
use sim_swarm.Prelude.{
  ℕ, true, false, List, [], ◌∷◌, Option, none, some, ◌≡◌, refl, arith, All, take,
}
use sim_swarm.Prelude.Text.{Text, codes}
use sim_swarm.Jobs.Row.{Job, JobStatus, running, reporting, completed}
use sim_swarm.Jobs.Store.{Table, Link, broken, up, table_after}
use sim_swarm.Jobs.Sync.{mark_job_failed_sync, save_report_result}
use sim_swarm.Jobs.Progress.{update_pipeline_stage_sync}
use sim_swarm.Jobs.Lifecycle.{Rows, Evolves, IsFinished, perform-Evolves, perform_all-IsFinished}
use sim_swarm.Jobs.Races.{
  Delivers, Rows₃, FirstWins, perform_all-Delivers, finish_race, stage_revives_failed,
}
use sim_swarm.Jobs.Writer

abbrev row : ℕ → JobStatus → Option ℕ → Option Text → Job
row id status finished report = record {
  id = id;
  user_id = codes "u1";
  seed_text = codes "seed";
  goal = some (codes "goal");
  tier = some (codes "small");
  status = status;
  pipeline_stage = none;
  result_report = report;
  result_chat_log = none;
  result_graph = none;
  error_message = none;
  gpu_provider = none;
  created_at = 0;
  completed_at = finished;
  pod_id = some (codes "p1");
  workflow_id = none;
  workflow_run_id = none;
  retry_count = 0;
  provision_seconds = none;
  pipeline_seconds = none;
  key_insight = none;
  share_token = none;
  result_structured = report;
  last_heartbeat = none;
  retry_of = none;
  enrich_web = true;
  enriched_seed = none;
  enrichment_citations = none;
  forecast_days = some 30;
  sim_data_available = false;
  live_status = none;
  markets_config = none;
}

abbrev two_rows : Table
two_rows = row 1 reporting none none ∷ row 2 completed (some 9) (some (codes "report")) ∷ []

abbrev history : List (Writer.Write × Link)
history =
    (Writer.heartbeat_sync 1 5, up)
    ∷ (Writer.save_report 1 (codes "r") (codes "{}") none 6, up)
    ∷ (Writer.fail_async 2 (codes "late") 7, up)
    ∷ (Writer.to_running 2, broken)
    ∷ []

two_rows-IsFinished : All IsFinished two_rows
two_rows-IsFinished = ground arith

perform-Evolves_example :
    Rows
      (Evolves (Writer.stage_async 2 1))
      two_rows
      (Writer.perform (Writer.stage_async 2 1) up two_rows)
perform-Evolves_example = perform-Evolves (Writer.stage_async 2 1) up two_rows

perform_all-IsFinished_example : All IsFinished (Writer.perform_all history two_rows)
perform_all-IsFinished_example = perform_all-IsFinished history two_rows two_rows-IsFinished

perform_all-Delivers_example : Rows Delivers two_rows (Writer.perform_all history two_rows)
perform_all-Delivers_example =
    perform_all-Delivers history two_rows (refl, (refl, (refl, (refl, tt))))

finish_race_example :
    let save = λ (n : ℕ) (u : Table).
      table_after u (save_report_result 1 (codes "r") (codes "{}") none n up u) in
    let fail = λ (n : ℕ) (u : Table). mark_job_failed_sync 1 (codes "stale") n up u in
    Rows₃
      (FirstWins 1 (codes "r") (codes "stale"))
      two_rows
      (fail 11 (save 10 two_rows))
      (save 11 (fail 10 two_rows))
finish_race_example = finish_race 1 (codes "r") (codes "{}") (codes "stale") none 10 11 two_rows

stage_revives_failed_example :
    Rows
      (λ j k.
        j.id ≡ 1
        → j.status ≡ running
        → (k.status ≡ running)
          × (k.completed_at ≡ some 3)
          × (k.error_message ≡ some (take 4096 (codes "stale"))))
      (row 1 running none none ∷ [])
      (update_pipeline_stage_sync 1 0 up
        (mark_job_failed_sync 1 (codes "stale") 3 up (row 1 running none none ∷ [])))
stage_revives_failed_example =
    stage_revives_failed 1 0 (codes "stale") 3 (row 1 running none none ∷ [])
