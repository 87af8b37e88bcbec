-- ===== src/Workflow/Tests.antt =====
-- Runs of the workflow against activities that answer by rule, and the theorems at such runs.
use sim_swarm.Prelude.{
  ℕ, ◌+◌, ◌≤◌, true, false, [], ◌∷◌, none, some, ◌≡◌, refl, ◌==◌, if◌then◌else◌,
}
use sim_swarm.Prelude.Text.{Text, codes, contains}
use sim_swarm.Workflow.Temporal.{
  Failure, ok, err, Activities, enriched, derived, provisioned, health_checked, polled, slept,
  terminated, pod_id_cleared, finalized,
}
use sim_swarm.Workflow.Run.{
  SimParams, run, start, pure, raise, ◌>>=◌, catch, finally, assign_pod, call,
}
use sim_swarm.Workflow.Trace.{
  held, GivenBack, InOrder, provisions, polls, failure_marks, hand_overs,
}
use sim_swarm.Workflow.Outcome.{run-holds_no_pod, run-reports_once, run-is_bounded}

abbrev failure : Text → Failure
failure m = record { message = codes "Activity task failed"; causes = m ∷ [] }

abbrev pod_name : ℕ → Text
pod_name n = b'p' ∷ n ∷ []

-- The first host is broken; the second runs a slow pod; the third one is unreachable once.
abbrev rough_day : Activities (Unit {0}) ℕ
rough_day = record {
  enrich_seed = λ t seed. ok seed;
  derive_markets = λ t seed. ok tt;
  provision_pod = λ t m. ok (pod_name (provisions t));
  wait_for_worker_health =
      λ t p. if provisions t == 1 then err (failure (codes "silent")) else ok tt;
  submit_and_poll = λ t p m.
      if polls t == 0
      then err (failure (codes "slow_pod: 0.25 rounds/min"))
      else if polls t == 1
      then err (failure (codes "pod_unreachable: 30 failures"))
      else ok 7;
  terminate_pod = λ t p. ok tt;
  clear_pod_id = λ t. ok tt;
  upload_and_finalize = λ t r. ok tt;
  mark_failed = λ t m. ok tt;
}

abbrev plain_params : SimParams
plain_params = record { seed_text = codes "seed"; enrich_web = true }

rough_day_trace : run rough_day plain_params start ≡ (
  ok tt,
  record {
    pod = some (pod_name 2);
    trace =
        terminated (pod_name 2) true
        ∷ finalized true true
        ∷ polled (pod_name 2) true
        ∷ slept 30
        ∷ polled (pod_name 2) false
        ∷ health_checked (pod_name 2) true
        ∷ provisioned (some (pod_name 2))
        ∷ pod_id_cleared true
        ∷ terminated (pod_name 1) true
        ∷ polled (pod_name 1) false
        ∷ health_checked (pod_name 1) true
        ∷ provisioned (some (pod_name 1))
        ∷ terminated (pod_name 0) true
        ∷ health_checked (pod_name 0) false
        ∷ provisioned (some (pod_name 0))
        ∷ derived true
        ∷ enriched true
        ∷ [];
  },
)
unfolding run pure raise ◌>>=◌ catch finally assign_pod call contains
rough_day_trace = refl

run-holds_no_pod_example :
    let (r, u) = run rough_day plain_params start in
    GivenBack u.trace × InOrder u.trace × (r ≡ ok tt → held u.trace ≡ none)
run-holds_no_pod_example = run-holds_no_pod rough_day plain_params

run-reports_once_example :
    let (r, u) = run rough_day plain_params start in
    (failure_marks u.trace + hand_overs u.trace ≡ 1) × (r ≡ ok tt → hand_overs u.trace ≡ 1)
run-reports_once_example = run-reports_once rough_day plain_params

run-is_bounded_example :
    let u = (run rough_day plain_params start).1 in (provisions u.trace ≤ 4) × (polls u.trace ≤ 6)
run-is_bounded_example = run-is_bounded rough_day plain_params
