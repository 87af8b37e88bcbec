-- ===== src/Sweeper/Stale.antt =====
-- saas/jobs/stale_detector.py: the sweep over the live rows. Temporal's answers to `describe` are a
-- parameter, and so is Python's `str` of a number. Times are whole seconds; `completed_at` and the age
-- come from one reading of the clock. Logging is left out.
use sim_swarm.Prelude.{
  ℕ, ◌+◌, ◌*◌, ◌-◌, Bool, true, false, List, [], ◌∷◌, ◌++◌, Option, none, some, not, ltb,
  if◌then◌else◌, get_or, select, length,
}
use sim_swarm.Prelude.Text.{Text, codes, is_empty}
use sim_swarm.Prelude.Dict.{text_Eq, Dict, lookup}
use sim_swarm.Jobs.Row.{
  Job, JobStatus, draft, pending, provisioning, running, reporting, completed, failed, refunded,
}
use sim_swarm.Jobs.Store.{Table, Link, unset, broken, up, Outcome, ok, raised}
use sim_swarm.Jobs.Sync.{mark_job_failed_sync}
use sim_swarm.Sweeper.Cleanup.{is_live}

-- saas/constants/tiers.py
abbrev pub tier_timeouts : Dict Text ℕ
tier_timeouts = (codes "small", 2700) ∷ (codes "medium", 18000) ∷ (codes "large", 43200) ∷ []

abbrev pub pending_budget_s : ℕ
pending_budget_s = 300

abbrev pub provisioning_budget_s : ℕ
provisioning_budget_s = 60 * 60

abbrev pub reporting_budget_s : ℕ
reporting_budget_s = 60 * 60 + 900

-- `tier or "large"`
abbrev or_large : Option Text → Text
or_large none = codes "large"
or_large (some tier) = if is_empty tier then codes "large" else tier

-- `_running_budget_s`
unfoldable pub running_budget_s : Option Text → ℕ
running_budget_s tier = get_or (lookup (or_large tier) tier_timeouts) 43200 + 600

-- `_phase_budget_s`
unfoldable pub phase_budget_s : JobStatus → Option Text → ℕ
phase_budget_s pending tier = pending_budget_s
phase_budget_s provisioning tier = provisioning_budget_s
phase_budget_s running tier = running_budget_s tier
phase_budget_s reporting tier = reporting_budget_s
phase_budget_s s tier = 24 * 60 * 60

-- `_load_live_jobs`
unfoldable pub load_live_jobs : Link → Table → Outcome (List Job)
load_live_jobs unset t = ok []
load_live_jobs broken t = raised
load_live_jobs up t = ok (select (λ j. is_live j.status) t)

-- What a call of `describe` comes to, as `_workflow_is_terminal` tells the cases apart: an RPC error
-- whose text says that the workflow is not there, any other error, or a description that says whether
-- the workflow is RUNNING. `crashed`: `asyncio.run` itself raises.
pub data Described : Type 0 where
  not_found other_error crashed : Described
  described : Bool → Described

-- `_workflow_is_terminal` under `asyncio.run`
unfoldable pub workflow_is_terminal : Described → Outcome Bool
workflow_is_terminal not_found = ok true
workflow_is_terminal other_error = ok false
workflow_is_terminal crashed = raised
workflow_is_terminal (described is_running) = ok (not is_running)

abbrev pub status_name : JobStatus → Text
status_name draft = codes "DRAFT"
status_name pending = codes "PENDING"
status_name provisioning = codes "PROVISIONING"
status_name running = codes "RUNNING"
status_name reporting = codes "REPORTING"
status_name completed = codes "COMPLETED"
status_name failed = codes "FAILED"
status_name refunded = codes "REFUNDED"

-- What the sweep changes, and the ids it reconciled.
pub record World : Type 0 where
  pub table : Table
  pub killed : List Text
  pub reconciled : List ℕ

module _ (str : ℕ → Text) (describe : Text → Described) (link : Link) (now : ℕ) where
  -- The reason that the loop builds.
  abbrev pub reason_for : Job → Text → Text
  reason_for j workflow =
      codes "over_budget age="
      ++ str (now - j.created_at)
      ++ codes "s budget="
      ++ str (phase_budget_s j.status j.tier)
      ++ codes "s status="
      ++ status_name j.status
      ++ codes " workflow="
      ++ workflow

  -- `_best_effort_terminate_pod`: the pods whose termination was asked for.
  abbrev best_effort_terminate_pod : Text → List Text → List Text
  best_effort_terminate_pod pod_id killed =
      if is_empty pod_id then killed else killed ++ pod_id ∷ []

  -- `_reconcile_stale_job`, and the note of the id in the loop.
  unfoldable pub reconcile_stale_job : Job → Text → World → World
  reconcile_stale_job j reason w = record {
    table = mark_job_failed_sync j.id (codes "stale_detector: " ++ reason) now link w.table;
    killed = best_effort_terminate_pod (get_or j.pod_id []) w.killed;
    reconciled = w.reconciled ++ j.id ∷ [];
  }

  -- The checks of one turn of the loop: the word for the workflow, or none to go on.
  unfoldable pub stale_reason : Job → Option Text
  stale_reason j =
      if ltb (now - j.created_at) (phase_budget_s j.status j.tier)
      then none
      else let missing = some (codes "missing") in
        elim j.workflow_id [
          | none ↦ missing
          | some workflow_id ↦
              if is_empty workflow_id
              then missing
              else elim (workflow_is_terminal (describe workflow_id)) [
                | raised ↦ none
                | ok terminal ↦ if terminal then some (codes "terminal") else none
              ]
        ]

  -- The loop of `detect_stale_jobs` over the rows that it loaded.
  unfoldable pub reconcile_all : List Job → World → World
  reconcile_all [] w = w
  reconcile_all (j ∷ jobs) w = reconcile_all jobs (elim (stale_reason j) [
    | none ↦ w
    | some workflow ↦ reconcile_stale_job j (reason_for j workflow) w
  ])

  -- `detect_stale_jobs`: the world after it, with the number of rows scanned.
  unfoldable pub detect_stale_jobs : Table → Outcome (ℕ × World)
  detect_stale_jobs t = elim (load_live_jobs link t) [
    | raised ↦ raised
    | ok jobs ↦
        ok (length jobs, reconcile_all jobs (record { table = t; killed = []; reconciled = [] }))
  ]
