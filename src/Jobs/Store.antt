-- ===== src/Jobs/Store.antt =====
-- The table as a list of rows, `UPDATE ... WHERE` and `SELECT ... WHERE id` on it, and how a helper
-- meets the database: `DATABASE_URL` may be unset, and a statement may fail. A statement and its
-- commit are one step: what fails leaves the table as it was.
use sim_swarm.Prelude.{ℕ, Bool, List, [], ◌∷◌, Option, none, some, ◌==◌, if◌then◌else◌}
use sim_swarm.Jobs.Row.{Job}

abbrev pub Table : Type 0
Table = List Job

-- `UPDATE simulation_jobs SET change WHERE matches`
unfoldable pub update_where : (Job → Bool) → (Job → Job) → Table → Table
update_where matches change [] = []
update_where matches change (j ∷ t) =
    (if matches j then change j else j) ∷ update_where matches change t

-- `SELECT ... WHERE id = :job_id`, `.first()`
unfoldable pub find_job : ℕ → Table → Option Job
find_job job_id [] = none
find_job job_id (j ∷ t) = if j.id == job_id then some j else find_job job_id t

-- `_get_sync_engine()` is None; or the statement raises; or it succeeds.
pub data Link : Type 0 where
  unset broken up : Link

pub data Outcome {ℓ} (A : Type ℓ) : Type ℓ where
  ok : A → Outcome A
  raised : Outcome A

-- A helper that logs a failed statement and returns.
abbrev pub swallow : Link → (Table → Table) → Table → Table
swallow unset f t = t
swallow broken f t = t
swallow up f t = f t

-- A helper that lets the exception through.
abbrev pub strict : Link → (Table → Table) → Table → Outcome Table
strict unset f t = ok t
strict broken f t = raised
strict up f t = ok (f t)

-- What the table holds after a helper that may raise.
abbrev pub table_after : Table → Outcome Table → Table
table_after t (ok u) = u
table_after t raised = t
