-- ===== src/Api/Create.antt =====
-- saas/jobs/api.py and api_retry.py: a job is created, and created again from a failed one. A tier is its
-- text.
use sim_swarm.Prelude.{
  ℕ, ◌+◌, Bool, true, false, List, [], ◌∷◌, ◌++◌, Option, none, some, ◌&&◌, ◌||◌, not, ltb, ◌==◌,
  if◌then◌else◌, get_or, length, select,
}
use sim_swarm.Prelude.Text.{Text, codes, text_eq, is_empty, strip}
use sim_swarm.Prelude.Dict.{text_Eq, member}
use sim_swarm.Jobs.Row.{
  Job, JobStatus, pending, provisioning, running, reporting, failed, refunded, status_in,
  ModelRouting,
}
use sim_swarm.Jobs.Store.{update_where}
use sim_swarm.Api.Service.{
  Reply, done, refused, Launch, Server, Service, find_route, new_job, owned,
}

-- `JobCreate`
pub record JobCreate : Type 0 where
  pub seed_text : Text
  pub goal : Text
  pub tier : Text
  pub enrich_web : Bool
  pub forecast_days : ℕ

abbrev pub dup_job_window_seconds : ℕ
dup_job_window_seconds = 60

abbrev pub live_job_statuses : List JobStatus
live_job_statuses = pending ∷ provisioning ∷ running ∷ reporting ∷ []

-- `column == value` on a nullable column.
abbrev is_value : Option Text → Text → Bool
is_value none value = false
is_value (some t) value = text_eq t value

-- The WHERE clause of `dup_q`, where the cutoff may lie before the clock's start.
abbrev pub is_duplicate : Text → JobCreate → ℕ → Job → Bool
is_duplicate user_id body now j =
    text_eq j.user_id user_id
    && text_eq j.seed_text body.seed_text
    && is_value j.goal body.goal
    && is_value j.tier body.tier
    && status_in j.status live_job_statuses
    && ltb now (j.created_at + dup_job_window_seconds)

-- The parameters of the workflow for a row.
abbrev pub launch_of : Job → Text → Text → ℕ → ModelRouting → Launch
launch_of j goal tier forecast_days routing = record {
  job_id = j.id;
  user_id = j.user_id;
  seed_text = j.seed_text;
  goal = goal;
  tier = tier;
  model_id = routing.model_id;
  gpu_type = routing.gpu_type;
  max_rounds = routing.max_rounds;
  vllm_args = get_or routing.vllm_args [];
  enrich_web = j.enrich_web;
  forecast_days = forecast_days;
  target_agents = routing.target_agents;
}

-- `scalar_one_or_none` raises where the query finds several rows.
abbrev pub duplicate_code : List Job → Option ℕ
duplicate_code [] = none
duplicate_code (j ∷ []) = some 409
duplicate_code (j ∷ k ∷ jobs) = some 500

-- `TierEnum`
abbrev pub tiers : List Text
tiers = codes "small" ∷ codes "medium" ∷ codes "large" ∷ []

-- `JobCreate(...)` of a row, with the default of `enrich_web`; none where a validator raises.
unfoldable pub body_of : Job → Option JobCreate
body_of j =
    let days = get_or j.forecast_days 30 in
    elim j.goal [
      | none ↦ none
      | some goal ↦ elim j.tier [
        | none ↦ none
        | some tier ↦
            if is_empty (strip j.seed_text) || not (member tier tiers) || ltb days 1 || ltb 365 days
            then none
            else some (record {
              seed_text = j.seed_text;
              goal = goal;
              tier = tier;
              enrich_web = true;
              forecast_days = days;
            })
      ]
    ]

-- `UPDATE simulation_jobs SET retry_of = :original_id WHERE id = :new_id`
unfoldable pub link_retry : ℕ → Reply Job × Service → Reply Job × Service
link_retry original_id (refused code, s) = (refused code, s)
link_retry original_id (done job, s) = (
  done (record job { retry_of = some original_id }),
  record s {
    table =
        update_where (λ j. j.id == job.id) (λ j. record j { retry_of = some original_id }) s.table;
  },
)

module _ (srv : Server) where
  -- The row is added, and the workflow is started; where that raises, the row is rolled back.
  unfoldable pub dispatch_job : Text → JobCreate → ModelRouting → Service → Reply Job × Service
  dispatch_job user_id body routing s =
      let job =
        new_job s.next_id user_id body.seed_text (some body.goal) (some body.tier) pending
          body.enrich_web (some body.forecast_days) srv.now in
      let launch = launch_of job body.goal body.tier body.forecast_days routing in
      elim (srv.start_workflow launch) [
        | none ↦ (refused 500, record s { next_id = s.next_id + 1 })
        | some w ↦
            let saved = record job { workflow_id = some w.0; workflow_run_id = some w.1 } in
            (
              done saved,
              record s {
                table = s.table ++ saved ∷ [];
                next_id = s.next_id + 1;
                started = s.started ++ launch ∷ [];
              },
            )
      ]

  -- After the test for duplicates.
  unfoldable pub route_job : Text → JobCreate → Service → Reply Job × Service
  route_job user_id body s = elim (find_route body.tier srv.routes) [
    | none ↦ (refused 500, s)
    | some routing ↦ dispatch_job user_id body routing s
  ]

  unfoldable pub create_job : Text → JobCreate → Service → Reply Job × Service
  create_job user_id body s =
      if srv.demo_mode
      then (refused 403, s)
      else if ltb srv.max_seed_chars (length body.seed_text)
      then (refused 400, s)
      else elim (duplicate_code (select (is_duplicate user_id body srv.now) s.table)) [
        | some code ↦ (refused code, s)
        | none ↦ route_job user_id body s
      ]

  unfoldable pub retry_job : Text → ℕ → Service → Reply Job × Service
  retry_job user_id job_id s = elim (owned user_id job_id s.table) [
    | refused code ↦ (refused code, s)
    | done original ↦
        if not (status_in original.status (failed ∷ refunded ∷ []))
        then (refused 400, s)
        else elim (body_of original) [
          | none ↦ (refused 500, s)
          | some body ↦ link_retry original.id (create_job user_id body s)
        ]
  ]
