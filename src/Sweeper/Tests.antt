-- ===== src/Sweeper/Tests.antt =====
-- saas/jobs/cleanup.py and stale_detector.py at concrete inputs.
use sim_swarm.Prelude.{
  ℕ, ◌≡◌, ◌≢◌, ◌⊎◌, refl, Bool, true, false, List, [], ◌∷◌, Option, none, some, All, select, length,
}
use sim_swarm.Prelude.Text.{Text, codes, text_eq, starts_with}
use sim_swarm.Prelude.Dict.{member, text_Eq, nat_eq}
use sim_swarm.Jobs.Row.{Job, reporting, running}
use sim_swarm.Jobs.Store.{Table, up, ok, raised, find_job}
use sim_swarm.Jobs.Sync.{get_job_status}
use sim_swarm.Jobs.Lifecycle.{Rows}
use sim_swarm.Sweeper.Cleanup.{
  Pod, swept, cleanup_orphaned_pods, is_live, sweep_pods, condemns, is_ours, active_pod_ids,
  get_active_job_pod_ids, extract_job_tag, pod_age_seconds,
}
use sim_swarm.Sweeper.Orphans.{Taken, Catches, cleanup_takes_orphans}
use sim_swarm.Sweeper.Stale.{Described, described, World, detect_stale_jobs}
use sim_swarm.Sweeper.Reaping.{is_stale, ids_of, pods_of, Reaps, detect_fails_stale}
use sim_swarm.Sweeper.Reports.{CutsReport, reports_are_cut}

abbrev job_7 : Job
job_7 = record {
  id = 7;
  user_id = codes "u";
  seed_text = codes "seed";
  goal = none;
  tier = some (codes "large");
  status = reporting;
  pipeline_stage = none;
  result_report = none;
  result_chat_log = none;
  result_graph = none;
  error_message = none;
  gpu_provider = none;
  created_at = 1000;
  completed_at = none;
  pod_id = some (codes "pod7");
  workflow_id = some (codes "wf7");
  workflow_run_id = none;
  retry_count = 0;
  provision_seconds = none;
  pipeline_seconds = none;
  key_insight = none;
  share_token = none;
  result_structured = none;
  last_heartbeat = none;
  retry_of = none;
  enrich_web = false;
  enriched_seed = none;
  enrichment_citations = none;
  forecast_days = none;
  sim_data_available = false;
  live_status = none;
  markets_config = none;
}

abbrev table : Table
table = job_7 ∷ record job_7 { id = 8; status = running; pod_id = none } ∷ []

abbrev a_pod : Text → Text → ℕ → Pod
a_pod id name uptime = record { id = id; name = name; uptime = uptime; last_status_change = [] }

-- The pod in use, a young one and an old one of the same job, one of nobody, and a foreign one.
abbrev pods : List Pod
pods =
    a_pod (codes "pod7") (codes "simswarm-sim-j7") 9000
    ∷ a_pod (codes "young") (codes "simswarm-sim-j7") 900
    ∷ a_pod (codes "old") (codes "simswarm-sim-j7") 1900
    ∷ a_pod (codes "lost") (codes "fishcloud-sim") 700
    ∷ a_pod (codes "other") (codes "training") 9999
    ∷ []

abbrev no_age : Text → Option ℕ
no_age s = none

abbrev all_go : Text → Bool
all_go id = true

two_pods_go :
    cleanup_orphaned_pods no_age all_go true pods up table
    ≡ (codes "old" ∷ codes "lost" ∷ [], ok (swept 5 (codes "old" ∷ codes "lost" ∷ [])))
unfolding cleanup_orphaned_pods get_active_job_pod_ids sweep_pods condemns is_ours active_pod_ids
    extract_job_tag pod_age_seconds get_job_status find_job member text_eq starts_with
two_pods_go = refl

cleanup_takes_orphans_example :
    let (ids, result) = cleanup_orphaned_pods no_age all_go true pods up table in
    All (Taken no_age all_go pods table) ids
    × (true ≡ true → up ≡ up → All (Catches no_age all_go table ids) pods × (result ≢ raised))
    × (true ≡ false ⊎ up ≢ up → ids ≡ [])
cleanup_takes_orphans_example = cleanup_takes_orphans no_age all_go true pods up table

abbrev no_digits : ℕ → Text
no_digits n = []

abbrev ended : Text → Described
ended workflow_id = described false

-- Two hours after the creation: over the budget of a report, within that of a large simulation.
detect_fails_stale_example :
    let live = select (λ j. is_live j.status) table in
    (w : World) × (detect_stale_jobs no_digits ended up 8200 table ≡ ok (length live, w))
    × (w.reconciled ≡ ids_of no_digits ended 8200 (select (is_stale no_digits ended 8200) live))
    × (w.killed ≡ pods_of no_digits ended 8200 (select (is_stale no_digits ended 8200) live))
    × Rows
        (Reaps (ids_of no_digits ended 8200 (select (is_stale no_digits ended 8200) live)))
        table
        w.table
detect_fails_stale_example = detect_fails_stale no_digits ended 8200 table

reports_are_cut_example :
    (n : ℕ) × (w : World) × (detect_stale_jobs no_digits ended up 8200 table ≡ ok (n, w))
    × Rows (CutsReport no_digits ended 8200) table w.table
reports_are_cut_example = reports_are_cut no_digits ended 8200 table
