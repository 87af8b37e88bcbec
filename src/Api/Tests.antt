-- ===== src/Api/Tests.antt =====
-- saas/jobs/api.py and its routers at concrete inputs: one job of a user, and a draft of another.
use sim_swarm.Prelude.{ℕ, ◌≡◌, ◌≢◌, refl, true, false, List, [], ◌∷◌, ◌++◌, none, some, arith}
use sim_swarm.Prelude.Text.{Text, codes, text_eq, text_eq_iff, strip, lstrip}
use sim_swarm.Prelude.Dict.{nat_eq, member}
use sim_swarm.Jobs.Row.{Job, JobStatus, pending, failed, draft, ModelRouting}
use sim_swarm.Api.Service.{done, Launch, Server, Service, new_job, find_route}
use sim_swarm.Api.Create.{JobCreate, create_job, route_job, dispatch_job}
use sim_swarm.Api.Requests.{Request, retry, delete, launch, serve, serve_all}
use sim_swarm.Api.Rows.{IsKeyed}
use sim_swarm.Api.Drafts.{create_draft, launch_draft}
use sim_swarm.Api.Limits.{draft_of, draft_skips_limit}
use sim_swarm.Api.Frames.{Frame, is_refused}
use sim_swarm.Api.Isolation.{serve-Frame}
use sim_swarm.Api.Histories.{rows_of, serve_all-isolates, create_job-once}

abbrev small : ModelRouting
small = record {
  sim_tier = codes "small";
  model_id = codes "m";
  gpu_type = codes "g";
  max_rounds = 10;
  vllm_args = none;
  target_agents = 5;
}

abbrev server : Server
server = record {
  demo_mode = false;
  max_seed_chars = 100;
  now = 1000;
  routes = small ∷ [];
  start_workflow = λ l. some (codes "sim", codes "run");
}

abbrev body : JobCreate
body = record {
  seed_text = codes "seed";
  goal = codes "goal";
  tier = codes "small";
  enrich_web = false;
  forecast_days = 30;
}

abbrev job : ℕ → Text → JobStatus → Job
job id user status =
    new_job id user (codes "seed") (some (codes "goal")) (some (codes "small")) status false
      (some 30) 900

abbrev service : Service
service = record {
  table = job 1 (codes "u1") failed ∷ job 2 (codes "u2") draft ∷ [];
  next_id = 3;
  started = [];
}

service-IsKeyed : IsKeyed service
unfolding member
service-IsKeyed = record { distinct = (refl, (refl, tt)); below = (omega arith, (omega arith, tt)) }

serve-Frame_example : Frame (codes "u1") service (serve server (codes "u1") (retry 1) service)
serve-Frame_example = serve-Frame server (codes "u1") (retry 1) service service-IsKeyed

apart : codes "u2" ≢ codes "u1"
unfolding text_eq
apart e =
    let same : false ≡ true = (text_eq_iff (codes "u2") (codes "u1")).1 e in ground (arith, same)

abbrev requests : List (Server × Text × Request)
requests =
    (server, codes "u1", retry 1)
    ∷ (server, codes "u1", delete 1)
    ∷ (server, codes "u1", launch 2)
    ∷ []

serve_all-isolates_example :
    IsKeyed (serve_all requests service)
    × (rows_of (codes "u2") (serve_all requests service).table ≡ job 2 (codes "u2") draft ∷ [])
unfolding text_eq
serve_all-isolates_example =
    serve_all-isolates requests service (codes "u2") service-IsKeyed (apart, (apart, (apart, tt)))

-- The row of a job that was created.
abbrev created : Job
created =
    record (new_job 3 (codes "u1") (codes "seed") (some (codes "goal")) (some (codes "small"))
      pending false (some 30) 1000) {
        workflow_id = some (codes "sim");
        workflow_run_id = some (codes "run");
      }

abbrev after : Service
after = (create_job server (codes "u1") body service).1

is_created : create_job server (codes "u1") body service ≡ (done created, after)
unfolding create_job route_job dispatch_job find_route text_eq
is_created = refl

-- In between another user creates a job.
abbrev between : Service
between = (create_job (record server { now = 1030 }) (codes "u2") body after).1

abbrev created_between : Job
created_between = record created { id = 4; user_id = codes "u2"; created_at = 1030 }

is_kept : between.table ≡ service.table ++ created ∷ created_between ∷ []
unfolding create_job route_job dispatch_job find_route text_eq
is_kept = refl

create_job-once_example :
    let again = create_job (record server { now = 1059 }) (codes "u1") body between in
    (after.table ≡ service.table ++ created ∷ [])
    × (is_refused again.0 ≡ true)
    × (again.1 ≡ between)
create_job-once_example =
    create_job-once server (record server { now = 1059 }) (codes "u1") body service after between
      created service.table (created_between ∷ []) is_created is_kept (omega arith)

-- A failed job that was retried, its retry, a job of another user, and a third one of the user.
abbrev listed : List Job
listed =
    job 1 (codes "u1") failed
    ∷ record (job 4 (codes "u1") pending) { retry_of = some 1 }
    ∷ job 2 (codes "u2") pending
    ∷ job 5 (codes "u1") pending
    ∷ []

as_stored : ℕ → List Job → List Job
as_stored k jobs = jobs

-- A server that takes seeds of three characters.
abbrev strict_server : Server
strict_server = record server { max_seed_chars = 3 }

draft_skips_limit_example :
    (is_refused (create_job strict_server (codes "u1") body service).0 ≡ true)
    × (let result =
          launch_draft strict_server
            (codes "u1")
            3
            (create_draft strict_server (codes "u1") (draft_of body) service).1 in
        (is_refused result.0 ≡ false)
        × (l : Launch) × (l.seed_text ≡ codes "seed")
        × (result.1.started ≡ l ∷ []))
unfolding find_route text_eq strip lstrip
draft_skips_limit_example =
    draft_skips_limit strict_server (codes "u1") body service small service-IsKeyed refl
      (omega arith) refl refl refl refl (λ l. refl)
