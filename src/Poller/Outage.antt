-- ===== src/Poller/Outage.antt =====
-- saas/jobs/pipeline.py: when the poll loop gives a pod up as unreachable.
use sim_swarm.Prelude.{
  ℕ, zero, suc, ◌+◌, ◌≤◌, ◌<◌, ◌≡◌, refl, subst, true, false, [], none, arith, leb,
}
use sim_swarm.Poller.State.{Config, Poll, State, Error, pod_unreachable, raises}
use sim_swarm.Poller.Turn.{◌>>=◌, poll_failed, poll_once, poll_loop}

module _ (polls : ℕ → Poll) where
  -- The polls from `from` on, `count` of them, have no answer.
  abbrev pub Silent : ℕ → ℕ → Type 0
  Silent from count = (i : ℕ) → i < count → (polls (from + i)).status ≡ none

  failed_turn :
      (c : Config) (left poll : ℕ) (s : State) (e : Error)
      → (polls poll).status ≡ none
      → s.consecutive_failures + 1 < 30
      → poll_loop c polls left
          (poll + 1)
          (record s { consecutive_failures = s.consecutive_failures + 1 })
        ≡ raises e []
      → poll_loop c polls (suc left) poll s ≡ raises e []
  unfolding poll_loop poll_once poll_failed ◌>>=◌
  failed_turn c left poll s e n few rest =
      let more : leb 30 (s.consecutive_failures + 1) ≡ false = ground (arith, few) in
      rw (n, more, rest) refl

  last_turn :
      (c : Config) (left poll : ℕ) (s : State)
      → (polls poll).status ≡ none
      → 30 ≤ s.consecutive_failures + 1
      → poll_loop c polls (suc left) poll s ≡ raises pod_unreachable []
  unfolding poll_loop poll_once poll_failed ◌>>=◌
  last_turn c left poll s n many =
      let enough : leb 30 (s.consecutive_failures + 1) ≡ true = ground (arith, many) in
      rw (n, enough) refl

  Silent-tail : (from count : ℕ) → Silent from (suc count) → Silent (from + 1) count
  Silent-tail from count h i l =
      subst (λ j. (polls j).status ≡ none) (omega arith) (h (i + 1) (omega (arith, l)))

  Silent-head : (from count : ℕ) → Silent from (suc count) → (polls from).status ≡ none
  Silent-head from count h = subst (λ j. (polls j).status ≡ none) (omega arith) (h 0 (omega arith))

  -- From any point of the loop, as many polls without an answer as are missing to thirty in a row end
  -- it in `pod_unreachable`, if that many polls are left.
  pub outage-gives_up :
      (c : Config) (missing left poll : ℕ) (s : State)
      → s.consecutive_failures + suc missing ≡ 30
      → missing ≤ left
      → Silent poll (suc missing)
      → poll_loop c polls (suc left) poll s ≡ raises pod_unreachable []
  outage-gives_up c zero left poll s n l h =
      last_turn c left poll s (Silent-head poll 0 h) (omega (arith, n))
  outage-gives_up c (suc missing) zero poll s n l h = absurd (omega (arith, l))
  outage-gives_up c (suc missing) (suc left) poll s n l h =
      failed_turn c (suc left) poll s pod_unreachable (Silent-head poll (suc missing) h)
        (omega (arith, n))
        (outage-gives_up c missing left (poll + 1) _ (omega (arith, n)) (omega (arith, l))
          (Silent-tail poll (suc missing) h))
