-- ===== src/Api/Access.antt =====
-- saas/jobs/api.py and api_share.py: a row is read, deleted, shared and no longer shared.
use sim_swarm.Prelude.{ℕ, ◌==◌, Option, none, some, not, if◌then◌else◌, select}
use sim_swarm.Prelude.Text.{Text, is_empty}
use sim_swarm.Jobs.Row.{Job, completed, status_eq}
use sim_swarm.Jobs.Store.{update_where}
use sim_swarm.Api.Service.{Reply, done, refused, Service, owned}

unfoldable pub get_job : Text → ℕ → Service → Reply Job × Service
get_job user_id job_id s = (owned user_id job_id s.table, s)

unfoldable pub delete_job : Text → ℕ → Service → Reply (Unit {0}) × Service
delete_job user_id job_id s = elim (owned user_id job_id s.table) [
  | refused code ↦ (refused code, s)
  | done job ↦ (done tt, record s { table = select (λ j. not (j.id == job_id)) s.table })
]

-- `job.share_token`, where an empty token counts as none.
abbrev pub current_token : Option Text → Option Text
current_token none = none
current_token (some t) = if is_empty t then none else some t

-- `create_share_link`, with the token that `secrets` would give.
unfoldable pub create_share_link : Text → ℕ → Text → Service → Reply Text × Service
create_share_link user_id job_id fresh s = elim (owned user_id job_id s.table) [
  | refused code ↦ (refused code, s)
  | done job ↦
      if not (status_eq job.status completed)
      then (refused 400, s)
      else elim (current_token job.share_token) [
        | some token ↦ (done token, s)
        | none ↦ (
          done fresh,
          record s {
            table =
                update_where (λ j. j.id == job_id) (λ j. record j { share_token = some fresh })
                  s.table;
          },
        )
      ]
]

unfoldable pub revoke_share_link : Text → ℕ → Service → Reply (Unit {0}) × Service
revoke_share_link user_id job_id s = elim (owned user_id job_id s.table) [
  | refused code ↦ (refused code, s)
  | done job ↦ (
    done tt,
    record s {
      table = update_where (λ j. j.id == job_id) (λ j. record j { share_token = none }) s.table;
    },
  )
]
