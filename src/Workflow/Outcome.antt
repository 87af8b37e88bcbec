-- ===== src/Workflow/Outcome.antt =====
-- The whole workflow, whatever the activities answer, from a start with no pod and no call made.
use sim_swarm.Prelude.{◌+◌, ◌≤◌, ◌∷◌, none, some, ◌≡◌, refl, subst, arith, inl, inr, Option-cases}
use sim_swarm.Prelude.Text.{Text}
use sim_swarm.Workflow.Temporal.{Result, ok, err, Trace, Activities, terminated, returned}
use sim_swarm.Workflow.Run.{State, SimParams, pre_gpu, release_pod, gpu_phase, run, start}
use sim_swarm.Workflow.Rules.{
  Post, Leaves, After, call-rule, bind-rule, catch-rule, finally-rule, call-bind-rule, pure-rule,
  raise-rule, if-rule,
}
use sim_swarm.Workflow.Trace.{
  held, last_pod, GivenBack, InOrder, provisions, polls, failure_marks, hand_overs,
}
use sim_swarm.Workflow.Phases.{Free, Safe, Settled, Handed, gpu_body-Handed}

-- Nothing called yet but the activities before a pod exists.
record Fresh (u : State) : Type 0 where
  free : Free u
  no_pods : provisions u.trace ≡ 0
  no_polls : polls u.trace ≡ 0
  unmarked : failure_marks u.trace ≡ 0
  not_handed : hand_overs u.trace ≡ 0

-- The pods are given back, the calls were in order and limited in number, and either `mark_failed` was called
-- once or the simulation was handed over once.
pub record Closed (u : State) : Type 0 where
  pub given_back : GivenBack u.trace
  pub in_order : InOrder u.trace
  pub pods : provisions u.trace ≤ 4
  pub tries : polls u.trace ≤ 6
  pub accounted : failure_marks u.trace + hand_overs u.trace ≡ 1

abbrev pub Concluded : Post (Unit {0})
Concluded (ok x) u = Closed u × (hand_overs u.trace ≡ 1) × (held u.trace ≡ none)
Concluded (err e) u = Closed u

-- Before the `finally` block: the same, but for the pod, which is still to be given back.
record Reported (u : State) : Type 0 where
  safe : Safe u
  pods : provisions u.trace ≤ 4
  tries : polls u.trace ≤ 6
  accounted : failure_marks u.trace + hand_overs u.trace ≡ 1

abbrev Caught : Post (Unit {0})
Caught (ok x) u = Reported u × (hand_overs u.trace ≡ 1)
Caught (err e) u = Reported u

no_pod-After :
    (r : Result (Unit {0})) (u : State) → u.pod ≡ none → Caught r u → After Concluded r (ok tt) u
no_pod-After (ok x) u n c =
    let free : held u.trace ≡ none = subst (λ o. Settled o u.trace) n c.0.safe.settled in
    (
      record {
        given_back = inl free;
        in_order = c.0.safe.in_order;
        pods = c.0.pods;
        tries = c.0.tries;
        accounted = c.0.accounted;
      },
      c.1,
      free,
    )
no_pod-After (err e) u n c = record {
  given_back = inl (subst (λ o. Settled o u.trace) n c.safe.settled);
  in_order = c.safe.in_order;
  pods = c.pods;
  tries = c.tries;
  accounted = c.accounted;
}

-- The termination of the last pod is noted.
abbrev after_termination : Text → Result (Unit {0}) → State → State
after_termination p answer u = record u { trace = terminated p (returned answer) ∷ u.trace }

terminated-GivenBack :
    (answer : Result (Unit {0})) (p : Text) (t : Trace)
    → last_pod t ≡ some p
    → GivenBack (terminated p (returned answer) ∷ t)
terminated-GivenBack (ok x) p t last = inl refl
terminated-GivenBack (err e) p t last = inr (p, t, refl, last)

terminated-Closed :
    (answer : Result (Unit {0})) (p : Text) (u : State)
    → u.pod ≡ some p
    → Reported u
    → Closed (after_termination p answer u)
terminated-Closed answer p u e c =
    let last : last_pod u.trace ≡ some p = subst (λ o. Settled o u.trace) e c.safe.settled in
    record {
      given_back = terminated-GivenBack answer p u.trace last;
      in_order = (last, c.safe.in_order);
      pods = c.pods;
      tries = c.tries;
      accounted = c.accounted;
    }

terminated-After :
    (r answer : Result (Unit {0})) (p : Text) (u : State)
    → u.pod ≡ some p
    → Caught r u
    → After Concluded r answer (after_termination p answer u)
terminated-After (ok x) (ok y) p u e c = (terminated-Closed (ok y) p u e c.0, c.1, refl)
terminated-After (ok x) (err f) p u e c = terminated-Closed (err f) p u e c.0
terminated-After (err g) (ok y) p u e c = terminated-Closed (ok y) p u e c
terminated-After (err g) (err f) p u e c = terminated-Closed (err f) p u e c

module _ {Markets Payload : Type 0} (acts : Activities Markets Payload) where
  release_pod-After :
      (r : Result (Unit {0})) (u : State)
      → Caught r u
      → Leaves (release_pod acts) u (After Concluded r)
  unfolding release_pod Leaves
  release_pod-After r u c = elim (Option-cases u.pod) [
    | inl n ↦ rw (n, release_pod) (no_pod-After r u n c)
    | inr (p, e) ↦
        rw (e, release_pod)
          (call-rule (After Concluded r) _ _ u (λ answer. terminated-After r answer p u e c))
  ]

  gpu_phase-Concluded :
      (markets : Markets) (s : State) → Fresh s → Leaves (gpu_phase acts markets) s Concluded
  unfolding gpu_phase
  gpu_phase-Concluded markets s f =
      finally-rule Caught _ _ _ _
        (catch-rule (Handed 4 6 s) _ _ _ _ (gpu_body-Handed acts markets s f.free)
          (λ x u h. ground arith)
          (λ e u h.
            call-bind-rule _ _ _ _ _ (λ y. raise-rule _ _ _ (ground arith)) (λ g. ground arith)))
        (release_pod-After)

  pre_gpu-Fresh : (params : SimParams) → Leaves (pre_gpu acts params) start (λ r u. Fresh u)
  unfolding pre_gpu
  pre_gpu-Fresh params =
      bind-rule (λ r u. Fresh u) _ _ _ _
        (if-rule _ params.enrich_web _ _ _ (λ y. call-rule _ _ _ _ (λ r. ground arith))
          (λ n. pure-rule _ _ _ (ground arith)))
        (λ seed u f. call-rule _ _ _ _ (λ r. ground arith)) (λ e u f. f)

  pub run-Concluded : (params : SimParams) → Leaves (run acts params) start Concluded
  unfolding run
  run-Concluded params =
      bind-rule (λ r u. elim r [ ok m ↦ Fresh u | err e ↦ Closed u ]) _ _ _ _
        (catch-rule (λ r u. Fresh u) _ _ _ _ (pre_gpu-Fresh params) (λ m u f. f)
          (λ e u f.
            call-bind-rule _ _ _ _ _ (λ y. raise-rule _ _ _ (ground arith)) (λ g. ground arith)))
        (λ m u f. gpu_phase-Concluded m u f) (λ e u f. f)

  -- Whatever the activities answer, each pod that was provisioned was given back by a termination that
  -- returned, unless the very last call of the workflow was to terminate the last pod, and failed; if
  -- the workflow returns, no pod is left. On the way no pod is asked for before the one before was
  -- given back, health and status are asked of the pod that is held, only the last pod is terminated,
  -- and the hand-over is called only with the artifacts of a simulation that ran.
  pub run-holds_no_pod :
      (params : SimParams)
      → let (r, u) = run acts params start in
        GivenBack u.trace × InOrder u.trace × (r ≡ ok tt → held u.trace ≡ none)
  unfolding Leaves
  run-holds_no_pod params = by_result (run acts params start) (run-Concluded params)
    where
      by_result :
          (out : Result (Unit {0}) × State)
          → Concluded out.0 out.1
          → GivenBack out.1.trace × InOrder out.1.trace × (out.0 ≡ ok tt → held out.1.trace ≡ none)
      by_result (ok x, u) c = (c.0.given_back, c.0.in_order, λ h. c.2)
      by_result (err e, u) c = (c.given_back, c.in_order, λ h. ground (arith, h))

  -- Whatever the activities answer, `mark_failed` is called once or `upload_and_finalize` returns once,
  -- never both and never neither; and if the workflow returns, it is the latter.
  pub run-reports_once :
      (params : SimParams)
      → let (r, u) = run acts params start in
        (failure_marks u.trace + hand_overs u.trace ≡ 1) × (r ≡ ok tt → hand_overs u.trace ≡ 1)
  unfolding Leaves
  run-reports_once params = by_result (run acts params start) (run-Concluded params)
    where
      by_result :
          (out : Result (Unit {0}) × State)
          → Concluded out.0 out.1
          → (failure_marks out.1.trace + hand_overs out.1.trace ≡ 1)
            × (out.0 ≡ ok tt → hand_overs out.1.trace ≡ 1)
      by_result (ok x, u) c = ground arith
      by_result (err e, u) c = ground arith

  -- Whatever the activities answer, at most four pods are asked for, two for each of two rounds, and
  -- `submit_and_poll` is called at most six times, three in each round.
  pub run-is_bounded :
      (params : SimParams)
      → let u = (run acts params start).1 in (provisions u.trace ≤ 4) × (polls u.trace ≤ 6)
  unfolding Leaves
  run-is_bounded params = by_result (run acts params start) (run-Concluded params)
    where
      by_result :
          (out : Result (Unit {0}) × State)
          → Concluded out.0 out.1
          → (provisions out.1.trace ≤ 4) × (polls out.1.trace ≤ 6)
      by_result (ok x, u) c = ground arith
      by_result (err e, u) c = ground arith
