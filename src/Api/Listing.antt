-- ===== src/Api/Listing.antt =====
-- saas/jobs/api.py: `list_jobs`. The order of the rows, newest first, is the database's: a parameter,
-- and each request has its own, since nothing breaks the ties of `created_at`.
use sim_swarm.Prelude.{
  ℕ, zero, suc, ◌+◌, ◌*◌, ◌-◌, ◌≡◌, ◌↔◌, All, IsIn, List, [], ◌∷◌, ◌++◌, none, some, ◌&&◌, not,
  ◌==◌, if◌then◌else◌, select, length, take, drop,
}
use sim_swarm.Prelude.Text.{Text, text_eq}
use sim_swarm.Prelude.Dict.{nat_eq, member}
use sim_swarm.Jobs.Row.{Job}
use sim_swarm.Jobs.Store.{Table}
use sim_swarm.Api.Service.{Reply, done, refused}

-- `JobListResponse`
pub record JobListResponse : Type 0 where
  pub jobs : List Job
  pub total : ℕ
  pub page : ℕ
  pub per_page : ℕ

-- `superseded_q`: the rows that a row of the user retries.
unfoldable pub superseded_ids : Text → Table → List ℕ
superseded_ids user [] = []
superseded_ids user (j ∷ t) =
    let rest = superseded_ids user t in
    elim j.retry_of [ none ↦ rest | some id ↦ if text_eq j.user_id user then id ∷ rest else rest ]

-- `base`
unfoldable pub base_query : Text → Table → List Job
base_query user t =
    select (λ j. text_eq j.user_id user && not (member j.id (superseded_ids user t))) t

-- `list_jobs`; a page before the first has a negative offset (unless the pages are
-- empty), which the database refuses.
unfoldable pub list_jobs : (List Job → List Job) → ℕ → ℕ → Text → Table → Reply JobListResponse
list_jobs newest_first page per_page user t =
    if page == 0 && not (per_page == 0)
    then refused 500
    else done (record {
      jobs = take per_page (drop ((page - 1) * per_page) (newest_first (base_query user t)));
      total = length (base_query user t);
      page = page;
      per_page = per_page;
    })

abbrev pub jobs_of : Reply JobListResponse → List Job
jobs_of (done r) = r.jobs
jobs_of (refused code) = []

-- The jobs of the first pages, up to a number, each from a request with its own order.
abbrev pub pages : (ℕ → List Job → List Job) → ℕ → ℕ → Text → Table → List Job
pages orders zero per_page user t = []
pages orders (suc n) per_page user t =
    pages orders n per_page user t ++ jobs_of (list_jobs (orders n) (n + 1) per_page user t)

-- The database orders the rows in one way for all requests, as it does where no two of them were created
-- at the same time, and neither drops nor adds a row.
pub record IsSteady (orders : ℕ → List Job → List Job) (rows : List Job) : Type 0 where
  pub same : (k : ℕ) → orders k rows ≡ orders 0 rows
  pub counted : length (orders 0 rows) ≡ length rows
  pub members : (j : Job) → IsIn j (orders 0 rows) ↔ IsIn j rows

-- A row of the user that retries a job.
abbrev pub Retries : Text → ℕ → Job → Type 0
Retries user id k = (k.user_id ≡ user) × (k.retry_of ≡ some id)

-- A row of the user that no row of the user retries.
pub record IsShown (user : Text) (t : Table) (j : Job) : Type 0 where
  pub stored : IsIn j t
  pub own : j.user_id ≡ user
  pub current : All (λ k. ¬ Retries user j.id k) t
