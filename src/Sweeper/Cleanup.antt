-- ===== src/Sweeper/Cleanup.antt =====
-- saas/jobs/cleanup.py: the sweep over the GPU provider's pods. The provider's list, its answer to a
-- call of `terminate_pod`, and the age that Python's `re` and `datetime` read from a status line are
-- parameters. The table is read once. Alerts and logging are left out.
use sim_swarm.Prelude.{
  ℕ, ◌+◌, ◌*◌, ◌-◌, Bool, true, false, List, [], ◌∷◌, Option, none, some, ◌&&◌, ◌||◌, not, ltb, leb,
  if◌then◌else◌, get_or, any, length, ◌++◌,
}
use sim_swarm.Prelude.Text.{Text, codes, text_eq, starts_with, is_empty}
use sim_swarm.Prelude.Dict.{text_Eq, member}
use sim_swarm.Jobs.Row.{JobStatus, pending, provisioning, running, reporting, status_in}
use sim_swarm.Jobs.Store.{Table, Link, unset, broken, up, Outcome, ok, raised}
use sim_swarm.Jobs.Sync.{get_job_status}

abbrev pub grace_period_seconds : ℕ
grace_period_seconds = 600

abbrev pub tag_mismatch_grace_seconds : ℕ
tag_mismatch_grace_seconds = 1800

-- `_pod_name_prefixes`
abbrev pub pod_name_prefixes : List Text
pod_name_prefixes = codes "fishcloud-sim" ∷ codes "simswarm-sim" ∷ []

-- `_LIVE_JOB_STATUSES`, also the list of the query in `_get_active_job_pod_ids`.
abbrev pub is_live : JobStatus → Bool
is_live s = status_in s (pending ∷ provisioning ∷ running ∷ reporting ∷ [])

-- A pod as `runpod.get_pods` describes it; an absent field is empty or zero.
pub record Pod : Type 0 where
  pub id : Text
  pub name : Text
  pub uptime : ℕ
  pub last_status_change : Text

-- `\d+` to the end of the text, as a number.
abbrev digits_from : ℕ → Text → Option ℕ
digits_from n [] = some n
digits_from n (c ∷ s) =
    let rest = digits_from (n * 10 + (c - b'0')) s in
    if leb b'0' c && leb c b'9' then rest else none

abbrev digits : Text → Option ℕ
digits s = if is_empty s then none else digits_from 0 s

-- What follows a prefix.
abbrev after_prefix : Text → Text → Option Text
after_prefix [] s = some s
after_prefix (d ∷ p) [] = none
after_prefix (d ∷ p) (c ∷ s) =
    let rest = after_prefix p s in if leb d c && leb c d then rest else none

abbrev tag_after : Text → Text → Option ℕ
tag_after prefix name = elim (after_prefix prefix name) [ none ↦ none | some s ↦ digits s ]

-- `_extract_job_tag`
unfoldable pub extract_job_tag : Pod → Option ℕ
extract_job_tag pod = elim (tag_after (codes "fishcloud-sim-j") pod.name) [
  | some n ↦ some n
  | none ↦ tag_after (codes "simswarm-sim-j") pod.name
]

-- The test on the name in `cleanup_orphaned_pods`.
unfoldable pub is_ours : Text → Bool
is_ours name = any (λ p. text_eq name p || starts_with name (p ++ codes "-")) pod_name_prefixes

-- `_get_active_job_pod_ids` on an open connection.
unfoldable pub active_pod_ids : Table → List Text
active_pod_ids [] = []
active_pod_ids (j ∷ t) = elim j.pod_id [
  | none ↦ active_pod_ids t
  | some p ↦ if is_live j.status then p ∷ active_pod_ids t else active_pod_ids t
]

-- `_get_active_job_pod_ids`
unfoldable pub get_active_job_pod_ids : Link → Table → Option (List Text)
get_active_job_pod_ids unset t = none
get_active_job_pod_ids broken t = none
get_active_job_pod_ids up t = some (active_pod_ids t)

-- The result of `cleanup_orphaned_pods`.
pub data Sweep : Type 0 where
  no_pods : Sweep
  db_unreachable : ℕ → Sweep
  swept : ℕ → List Text → Sweep

-- `age_of_change` reads the seconds since the change that a status line tells.
module _ (age_of_change : Text → Option ℕ) where
  -- `_pod_age_seconds`
  unfoldable pub pod_age_seconds : Pod → ℕ
  pod_age_seconds pod =
      if ltb 0 pod.uptime
      then pod.uptime
      else if is_empty pod.last_status_change
      then 0
      else get_or (age_of_change pod.last_status_change) 0

  -- The last test before the call.
  abbrev pub old_enough : Pod → Bool
  old_enough pod = not (ltb (pod_age_seconds pod) grace_period_seconds)

  -- Whether a tagged pod is protected by its job.
  abbrev pub protects : Option JobStatus → Pod → Bool
  protects none pod = false
  protects (some s) pod = is_live s && ltb (pod_age_seconds pod) tag_mismatch_grace_seconds

  -- One turn of the loop up to the call: whether the pod is to be terminated.
  unfoldable pub condemns : Link → Table → List Text → Pod → Outcome Bool
  condemns link t active pod =
      if not (is_ours pod.name)
      then ok false
      else if member pod.id active
      then ok false
      else elim (extract_job_tag pod) [
        | none ↦ ok (old_enough pod)
        | some job_id ↦ elim (get_job_status job_id link t) [
          | raised ↦ raised
          | ok status ↦ ok (not (protects status pod) && old_enough pod)
        ]
      ]

  -- `terminates` says whether `runpod.terminate_pod` returns.
  module _ (terminates : Text → Bool) where
    -- The loop: the ids of the pods that were terminated, and whether it came to its end.
    unfoldable pub sweep_pods : Link → Table → List Text → List Pod → List Text × Bool
    sweep_pods link t active [] = ([], true)
    sweep_pods link t active (pod ∷ pods) =
        let (ids, done) = sweep_pods link t active pods in
        elim (condemns link t active pod) [
          | raised ↦ ([], false)
          | ok condemned ↦ (if condemned && terminates pod.id then pod.id ∷ ids else ids, done)
        ]

    -- `cleanup_orphaned_pods`: the terminated pods and the result, `raised` without an API key and when
    -- a status read fails.
    unfoldable pub cleanup_orphaned_pods :
        Bool → List Pod → Link → Table → List Text × Outcome Sweep
    cleanup_orphaned_pods has_key pods link t =
        if not has_key
        then ([], raised)
        else if is_empty pods
        then ([], ok no_pods)
        else elim (get_active_job_pod_ids link t) [
          | none ↦ ([], ok (db_unreachable (length pods)))
          | some active ↦
              let (ids, done) = sweep_pods link t active pods in
              (ids, if done then ok (swept (length pods) ids) else raised)
        ]
