-- ===== src/Workflow/Phases.antt =====
-- What each phase of the workflow leaves behind, whatever the activities answer.
use sim_swarm.Prelude.{
  ℕ, zero, suc, ◌+◌, ◌≤◌, true, false, ◌∷◌, Option, none, some, ◌≡◌, refl, ◌≢◌, arith,
}
use sim_swarm.Prelude.Text.{Text}
use sim_swarm.Workflow.Temporal.{
  Failure, Result, ok, err, Trace, Activities, provisioned, terminated, health_checked, finalized,
  returned,
}
use sim_swarm.Workflow.Run.{
  State, pure, finalize, calls_for_swap, is_unreachable, provision_healthy, swap_or_raise, poll_pod,
  gpu_loop, gpu_body,
}
use sim_swarm.Workflow.Rules.{
  Post, Leaves, call-rule, bind-rule, call-bind-rule, call-catch-rule, assign-rule, pure-rule,
  raise-rule, weaken-rule, if-rule,
}
use sim_swarm.Workflow.Trace.{held, last_pod, InOrder, provisions, polls, failure_marks, hand_overs}

-- The variable `pod` agrees with the trace as far as the `finally` block needs: with no pod in it
-- none is held, and a pod in it is the last one.
abbrev pub Settled : Option Text → Trace → Type 0
Settled none t = held t ≡ none
Settled (some p) t = last_pod t ≡ some p

-- No pod is held, and none is in the variable.
pub record Free (s : State) : Type 0 where
  pub no_pod : s.pod ≡ none
  pub none_held : held s.trace ≡ none
  pub in_order : InOrder s.trace

-- Pod `p` is held, and it is in the variable.
pub record Holds (p : Text) (s : State) : Type 0 where
  pub this_pod : s.pod ≡ some p
  pub this_held : held s.trace ≡ some p
  pub this_last : last_pod s.trace ≡ some p
  pub in_order : InOrder s.trace

pub record Safe (s : State) : Type 0 where
  pub settled : Settled s.pod s.trace
  pub in_order : InOrder s.trace

-- From `s` to `u`: at most `n` more pods and `k` more polls, and nothing reported yet.
pub record Within (n k : ℕ) (s u : State) : Type 0 where
  pub pods : provisions u.trace ≤ n + provisions s.trace
  pub tries : polls u.trace ≤ k + polls s.trace
  pub no_mark : failure_marks u.trace ≡ failure_marks s.trace
  pub no_hand_over : hand_overs u.trace ≡ hand_overs s.trace

-- How a part of the workflow ends.
abbrev pub Ends : {A : Type 0} → (A → State → Type 0) → State → Result A → Type 0
Ends Q u (ok a) = Q a u
Ends Q u (err e) = Safe u

-- A healthy pod that is held, or a failure; with at most `n` pods more than in `s`.
abbrev pub Healthy : ℕ → State → Post Text
Healthy n s r u = Ends Holds u r × Within n 0 s u

-- The artifacts of a simulation that ran on `p`, which is still held; or a swap, which is made only
-- while `cb_left` allows it; or a failure; with at most `k` polls more than in `s`.
abbrev pub Polled : {Payload : Type 0} → ℕ → ℕ → Text → State → Post (Option Payload)
Polled k cb_left p s (ok (some r)) u = Holds p u × Within 0 k s u
Polled k cb_left p s (ok none) u = Free u × Within 0 k s u × (cb_left ≢ 0)
Polled k cb_left p s (err e) u = Safe u × Within 0 k s u

-- Artifacts, with a pod that is settled, or a failure.
abbrev pub Looped : {Payload : Type 0} → ℕ → ℕ → State → Post (Option Payload)
Looped n k s (ok (some r)) u = Safe u × Within n k s u
Looped n k s (ok none) u = ⊥
Looped n k s (err e) u = Safe u × Within n k s u

-- A part of the workflow that hands over exactly if it returns.
pub record Tried (n k : ℕ) (s u : State) : Type 0 where
  pub safe : Safe u
  pub pods : provisions u.trace ≤ n + provisions s.trace
  pub tries : polls u.trace ≤ k + polls s.trace

abbrev pub Handed : ℕ → ℕ → State → Post (Unit {0})
Handed n k s (ok x) u =
    Tried n k s u
    × (failure_marks u.trace ≡ failure_marks s.trace)
    × (hand_overs u.trace ≡ suc (hand_overs s.trace))
Handed n k s (err e) u =
    Tried n k s u
    × (failure_marks u.trace ≡ failure_marks s.trace)
    × (hand_overs u.trace ≡ hand_overs s.trace)

-- After a host that never became healthy was given back.
abbrev bad_host : Text → State → State
bad_host p s = record s {
  pod = none;
  trace = terminated p true ∷ health_checked p false ∷ provisioned (some p) ∷ s.trace;
}

module _ {Markets Payload : Type 0} (acts : Activities Markets Payload) where
  -- Whatever the activities answer: a healthy pod that is held, or a failure with the pod settled.
  pub provision_healthy-Ends :
      (left : ℕ) (markets : Markets) (s : State)
      → Free s
      → Leaves (provision_healthy acts left markets) s (Healthy (suc left) s)
  unfolding provision_healthy
  provision_healthy-Ends zero markets s f =
      let R = Healthy 1 s in
      call-bind-rule R _ _ _ s
        (λ p.
          assign-rule R _ _ _
            (call-bind-rule R _ _ _ _ (λ x. pure-rule R _ _ (ground arith)) (λ e. ground arith)))
        (λ e. ground arith)
  provision_healthy-Ends (suc left) markets s f =
      let R = Healthy (suc (suc left)) s in
      call-bind-rule R _ _ _ s
        (λ p. assign-rule R _ _ _ (
          call-catch-rule R _ _ (λ _. p) _ _ (λ x. ground arith)
            λ e.
              call-bind-rule R _ _ _ _
                (λ y. assign-rule R _ _ _ (
                  weaken-rule (Healthy (suc left) (bad_host p s)) R _ _
                    (provision_healthy-Ends left markets (bad_host p s) (ground arith))
                    (λ r u q. ground arith)))
                (λ x. ground arith)))
        (λ e. ground arith)

  swap_or_raise-Polled :
      (k cb_left : ℕ) (p : Text) (e : Failure) (s u : State)
      → Holds p u
      → Within 0 k s u
      → Leaves (swap_or_raise acts cb_left p e) u (Polled k cb_left p s)
  unfolding swap_or_raise
  swap_or_raise-Polled k zero p e s u h w =
      if-rule _ (calls_for_swap e) _ _ _ (λ swap. raise-rule _ _ _ (ground arith))
        (λ other. raise-rule _ _ _ (ground arith))
  swap_or_raise-Polled k (suc left) p e s u h w =
      if-rule _ (calls_for_swap e) _ _ _
        (λ swap.
          call-bind-rule _ _ _ _ _
            (λ x.
              call-bind-rule _ _ _ _ _ (λ y. assign-rule _ _ _ _ (pure-rule _ _ _ (ground arith)))
                (λ f. ground arith))
            (λ f. ground arith))
        (λ other. raise-rule _ _ _ (ground arith))

  -- `k` polls were made since `s`, where the polling of this pod began, and `n` are allowed.
  poll_pod-Polled :
      (left k n cb_left : ℕ) (p : Text) (markets : Markets) (s u : State)
      → suc left + k ≤ n
      → Holds p u
      → Within 0 k s u
      → Leaves (poll_pod acts left cb_left p markets) u (Polled n cb_left p s)
  unfolding poll_pod
  poll_pod-Polled zero k n cb_left p markets s u b h w =
      call-catch-rule _ _ _ some _ _ (λ r. ground arith)
        λ e. swap_or_raise-Polled n cb_left p e s _ (ground arith) (ground arith)
  poll_pod-Polled (suc left) k n cb_left p markets s u b h w =
      call-catch-rule _ _ _ some _ _ (λ r. ground arith)
        λ e.
          if-rule _ (is_unreachable e) _ _ _
            (λ again.
              call-bind-rule _ _ _ _ _
                (λ x.
                  poll_pod-Polled left (suc k) n cb_left p markets s _ (omega arith) (ground arith)
                    (ground arith))
                (λ f. ground arith))
            (λ other. swap_or_raise-Polled n cb_left p e s _ (ground arith) (ground arith))

  -- The last pod: a swap is no longer possible.
  last_poll :
      (p : Text) (s u : State)
      → Within 2 0 s u
      → (r : Result (Option Payload)) (v : State) → Polled 3 0 p u r v
      → Looped 2 3 s r v
  last_poll p s u w (ok (some r)) v q = ground arith
  last_poll p s u w (ok none) v q = absurd (q.2 refl)
  last_poll p s u w (err e) v q = ground arith

  -- Pods and polls add up from one round of the loop to the next.
  next_round :
      (n k : ℕ) (s v : State)
      → Within 2 3 s v
      → (r : Result (Option Payload)) (x : State) → Looped n k v r x
      → Looped (n + 2) (k + 3) s r x
  next_round n k s v w (ok (some r)) x q = ground arith
  next_round n k s v w (ok none) x q = q
  next_round n k s v w (err e) x q = ground arith

  after_poll :
      (n k left : ℕ) (markets : Markets) (p : Text) (s u : State)
      → Within 2 0 s u
      → ((v : State) → Free v → Leaves (gpu_loop acts left markets) v (Looped n k v))
      → (result : Option Payload) (v : State) → Polled 3 (suc left) p u (ok result) v
      → Leaves
          (elim result [ some r ↦ pure (some r) | none ↦ gpu_loop acts left markets ])
          v
          (Looped (n + 2) (k + 3) s)
  after_poll n k left markets p s u w loop (some r) v q = pure-rule _ _ _ (ground arith)
  after_poll n k left markets p s u w loop none v q =
      weaken-rule (Looped n k v) _ _ _ (loop v q.0) (next_round n k s v (ground arith))

  -- One round rents at most two pods and makes at most three polls.
  gpu_loop_last-Looped :
      (markets : Markets) (s : State)
      → Free s
      → Leaves (gpu_loop acts zero markets) s (Looped 2 3 s)
  unfolding gpu_loop
  gpu_loop_last-Looped markets s f =
      bind-rule (Healthy 2 s) _ _ _ _ (provision_healthy-Ends 1 markets s f)
        (λ p u h.
          weaken-rule (Polled 3 0 p u) _ _ _
            (poll_pod-Polled 2 0 3 0 p markets u u (omega arith) h.0 (ground arith))
            (last_poll p s u h.1))
        (λ e u h. ground arith)

  gpu_loop-Looped :
      (markets : Markets) (s : State) → Free s → Leaves (gpu_loop acts 1 markets) s (Looped 4 6 s)
  unfolding gpu_loop
  gpu_loop-Looped markets s f =
      bind-rule (Healthy 2 s) _ _ _ _ (provision_healthy-Ends 1 markets s f)
        (λ p u h.
          bind-rule (Polled 3 1 p u) _ _ _ _
            (poll_pod-Polled 2 0 3 1 p markets u u (omega arith) h.0 (ground arith))
            (after_poll 2 3 0 markets p s u h.1 (gpu_loop_last-Looped markets))
            (λ e v q. ground arith))
        (λ e u h. ground arith)

  finalize-Handed :
      (result : Option Payload) (s u : State)
      → Looped 4 6 s (ok result) u
      → Leaves (finalize acts result) u (Handed 4 6 s)
  finalize-Handed none s u h = absurd h
  finalize-Handed (some r) s u h = call-rule _ _ _ _ (λ q. handed q)
    where
      handed :
          (q : Result (Unit {0}))
          → Handed 4 6 s q (record u { trace = finalized true (returned q) ∷ u.trace })
      handed (ok x) = ground arith
      handed (err e) = ground arith

  pub gpu_body-Handed :
      (markets : Markets) (s : State) → Free s → Leaves (gpu_body acts markets) s (Handed 4 6 s)
  unfolding gpu_body
  gpu_body-Handed markets s f =
      bind-rule (Looped 4 6 s) _ _ _ _ (gpu_loop-Looped markets s f)
        (λ result u h. finalize-Handed result s u h) (λ e u h. ground arith)
