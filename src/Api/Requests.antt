-- ===== src/Api/Requests.antt =====
-- The requests of saas/jobs/api.py, api_retry.py, api_share.py and api_draft.py as one type, so that a
-- history is a list of requests, each with its user.
use sim_swarm.Prelude.{ℕ, List, [], ◌∷◌}
use sim_swarm.Prelude.Text.{Text}
use sim_swarm.Jobs.Row.{Job}
use sim_swarm.Api.Service.{Reply, done, refused, Server, Service}
use sim_swarm.Api.Create.{JobCreate, create_job, retry_job}
use sim_swarm.Api.Access.{get_job, delete_job, create_share_link, revoke_share_link}
use sim_swarm.Api.Drafts.{DraftCreate, DraftUpdate, create_draft, update_draft, launch_draft}

pub data Request : Type 0 where
  create : JobCreate → Request
  retry : ℕ → Request
  get : ℕ → Request
  delete : ℕ → Request
  share : ℕ → Text → Request
  revoke : ℕ → Request
  save_draft : DraftCreate → Request
  edit_draft : ℕ → DraftUpdate → Request
  launch : ℕ → Request

pub data Answer : Type 0 where
  row : Job → Answer
  link : Text → Answer
  empty : Answer

abbrev pub answer : {A : Type 0} → (A → Answer) → Reply A × Service → Reply Answer × Service
answer f (done a, s) = (done (f a), s)
answer f (refused code, s) = (refused code, s)

unfoldable pub serve : Server → Text → Request → Service → Reply Answer × Service
serve srv user (create body) s = answer row (create_job srv user body s)
serve srv user (retry id) s = answer row (retry_job srv user id s)
serve srv user (get id) s = answer row (get_job user id s)
serve srv user (delete id) s = answer (λ u. empty) (delete_job user id s)
serve srv user (share id token) s = answer link (create_share_link user id token s)
serve srv user (revoke id) s = answer (λ u. empty) (revoke_share_link user id s)
serve srv user (save_draft body) s = answer row (create_draft srv user body s)
serve srv user (edit_draft id body) s = answer row (update_draft srv user id body s)
serve srv user (launch id) s = answer row (launch_draft srv user id s)

-- A history: the requests with their users, each met by the server as it is then.
unfoldable pub serve_all : List (Server × Text × Request) → Service → Service
serve_all [] s = s
serve_all (r ∷ requests) s = serve_all requests (serve r.0 r.1 r.2 s).1
