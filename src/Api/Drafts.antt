-- ===== src/Api/Drafts.antt =====
-- saas/jobs/api_draft.py.
use sim_swarm.Prelude.{
  ℕ, ◌+◌, ◌==◌, Bool, true, ◌||◌, [], ◌∷◌, ◌++◌, Option, none, some, not, ltb, length, get_or,
  if◌then◌else◌,
}
use sim_swarm.Prelude.Text.{Text, text_eq, is_empty, strip}
use sim_swarm.Jobs.Row.{Job, draft, pending, status_eq, ModelRouting}
use sim_swarm.Jobs.Store.{Table, update_where, find_job}
use sim_swarm.Api.Service.{Reply, done, refused, Server, Service, find_route, new_job}
use sim_swarm.Api.Create.{launch_of}

-- `DraftCreate`
pub record DraftCreate : Type 0 where
  pub seed_text : Text
  pub goal : Option Text
  pub tier : Option Text
  pub enrich_web : Bool
  pub forecast_days : Option ℕ

-- `DraftUpdate`
pub record DraftUpdate : Type 0 where
  pub seed_text : Option Text
  pub goal : Option Text
  pub tier : Option Text
  pub enrich_web : Option Bool
  pub forecast_days : Option ℕ

-- `_get_user_draft`
unfoldable pub get_user_draft : Text → ℕ → Table → Reply Job
get_user_draft user_id job_id t = elim (find_job job_id t) [
  | none ↦ refused 404
  | some job ↦
      if not (text_eq job.user_id user_id)
      then refused 404
      else if status_eq job.status draft
      then done job
      else refused 409
]

-- A value that is given takes the place of the column's.
abbrev or_kept : {A : Type 0} → Option A → Option A → Option A
or_kept none old = old
or_kept (some a) old = some a

-- The assignments of `update_draft`.
abbrev pub revised : DraftUpdate → Job → Job
revised body j = record j {
  seed_text = get_or body.seed_text j.seed_text;
  goal = or_kept body.goal j.goal;
  tier = or_kept body.tier j.tier;
  enrich_web = get_or body.enrich_web j.enrich_web;
  forecast_days = or_kept body.forecast_days j.forecast_days;
}

-- `not text or not text.strip()`
abbrev is_blank : Option Text → Bool
is_blank none = true
is_blank (some t) = is_empty (strip t)

-- What a launch needs of a draft: its goal, its tier and its days, or the code of the refusal.
unfoldable pub launchable : Job → Reply (Text × Text × ℕ)
launchable j =
    let tier = get_or j.tier [] in
    if is_empty (strip j.seed_text) || is_blank j.goal || is_empty tier
    then refused 422
    else elim j.forecast_days [
      | none ↦ refused 422
      | some days ↦ done (get_or j.goal [], tier, days)
    ]

module _ (srv : Server) where
  unfoldable pub create_draft : Text → DraftCreate → Service → Reply Job × Service
  create_draft user_id body s =
      let job =
        new_job s.next_id user_id body.seed_text body.goal body.tier draft body.enrich_web
          body.forecast_days srv.now in
      (done job, record s { table = s.table ++ job ∷ []; next_id = s.next_id + 1 })

  unfoldable pub update_draft : Text → ℕ → DraftUpdate → Service → Reply Job × Service
  update_draft user_id job_id body s = elim (get_user_draft user_id job_id s.table) [
    | refused code ↦ (refused code, s)
    | done job ↦
        if ltb srv.max_seed_chars (length (get_or body.seed_text [])) then (refused 400, s) else (
          done (revised body job),
          record s { table = update_where (λ j. j.id == job_id) (revised body) s.table },
        )
  ]

  -- The end of `launch_draft`: the workflow is started, and the row becomes PENDING.
  unfoldable pub dispatch_draft :
      Job → Text → Text → ℕ → ModelRouting → Service → Reply Job × Service
  dispatch_draft job goal tier days routing s =
      let launch = launch_of job goal tier days routing in
      elim (srv.start_workflow launch) [
        | none ↦ (refused 500, s)
        | some w ↦
            let change = λ (j : Job). record j {
              workflow_id = some w.0;
              workflow_run_id = some w.1;
              status = pending;
            } in
            (
              done (change job),
              record s {
                table = update_where (λ j. j.id == job.id) change s.table;
                started = s.started ++ launch ∷ [];
              },
            )
      ]

  unfoldable pub launch_draft : Text → ℕ → Service → Reply Job × Service
  launch_draft user_id job_id s =
      if srv.demo_mode then (refused 403, s) else elim (get_user_draft user_id job_id s.table) [
        | refused code ↦ (refused code, s)
        | done job ↦ elim (launchable job) [
          | refused code ↦ (refused code, s)
          | done parts ↦ elim (find_route parts.1 srv.routes) [
            | none ↦ (refused 500, s)
            | some routing ↦ dispatch_draft job parts.0 parts.1 parts.2 routing s
          ]
        ]
      ]
