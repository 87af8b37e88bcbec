-- ===== src/Poller/Finish.antt =====
-- saas/jobs/pipeline.py: every way in which `poll_until_complete` ends.
use sim_swarm.Prelude.{
  ℕ, zero, suc, ◌+◌, ◌≤◌, ◌<◌, ◌≡◌, refl, sym, subst, [], if-split, true, Option, none, some, arith,
  Option-cases, inl, inr, leb, Bool-cases,
}
use sim_swarm.Prelude.Text.{text_eq, codes}
use sim_swarm.Poller.State.{
  Config, Status, Poll, State, Error, pod_unreachable, raises, max_polls, start,
}
use sim_swarm.Poller.Turn.{
  poll_failed, poll_answered, poll_once, poll_branch, poll_loop, poll_until_complete,
}
use sim_swarm.Poller.Rules.{
  Ends, Ends-bind, Ends-weaken, Connected, Answered, Completed, poll_answered-Keeps,
}
use sim_swarm.Poller.Outage.{Silent}

module _ (polls : ℕ → Poll) where
  -- The failures counted are those of the last polls, and less than thirty.
  pub record Counts (poll : ℕ) (s : State) : Type 0 where
    pub from : ℕ
    pub adds_up : from + s.consecutive_failures ≡ poll
    pub few : s.consecutive_failures < 30
    pub silent : Silent polls from s.consecutive_failures

  -- The answer of one of the first `last` polls, which says that the run is completed.
  abbrev pub Delivered : ℕ → Status → Type 0
  Delivered last r =
      (i : ℕ) × (i < last)
      × ((polls i).status ≡ some r)
      × (text_eq r.status (codes "completed") ≡ true)

  -- Thirty polls in a row had no answer, among the first `last`.
  abbrev pub Outage : ℕ → Type 0
  Outage last = (j : ℕ) × (j + 30 ≤ last) × Silent polls j 30

  abbrev pub Blames : ℕ → Error → Type 0
  Blames last e = e ≡ pod_unreachable → Outage last

  -- One more poll without an answer.
  Silent-snoc :
      (from count : ℕ)
      → Silent polls from count
      → (polls (from + count)).status ≡ none
      → Silent polls from (count + 1)
  Silent-snoc from count h n i l = elim (Bool-cases (leb (suc i) count)) [
    | inl y ↦ h i (ground (arith, y))
    | inr m ↦
        let e : i ≡ count = ground (arith, m, l) in
        subst (λ k. (polls (from + k)).status ≡ none) (sym e) n
  ]

  poll_failed-Ends :
      (poll last : ℕ) (s : State)
      → poll < last
      → (polls poll).status ≡ none
      → Counts poll s
      → Ends (Counts (poll + 1)) (Delivered last) (Blames last) (poll_failed s)
  unfolding poll_failed
  poll_failed-Ends poll last s l n k =
      let quiet : Silent polls k.from (s.consecutive_failures + 1) =
        Silent-snoc k.from s.consecutive_failures k.silent (rw k.adds_up n) in
      if-split (Ends (Counts (poll + 1)) (Delivered last) (Blames last))
        (leb 30 (s.consecutive_failures + 1)) (raises pod_unreachable []) _
        (λ y e.
          let full : s.consecutive_failures + 1 ≡ 30 = ground (arith, y, k.few) in
          (
            k.from,
            omega (arith, full, k.adds_up, l),
            subst (λ c. Silent polls k.from c) full quiet,
          ))
        (λ m. record {
          from = k.from;
          adds_up = omega (arith, k.adds_up);
          few = ground (arith, m);
          silent = quiet;
        })

  poll_once-Ends :
      (c : Config) (poll last : ℕ) (s : State)
      → poll < last
      → Counts poll s
      → Ends (Counts (poll + 1)) (Delivered last) (Blames last) (poll_once c poll (polls poll) s)
  unfolding poll_once
  poll_once-Ends c poll last s l k =
      let branch : Option Status → Type 0 = λ o.
        Ends (Counts (poll + 1)) (Delivered last) (Blames last)
          (poll_branch c poll (polls poll) s o) in
      elim (Option-cases ((polls poll).status)) [
        | inl e ↦ subst branch (sym e) (poll_failed-Ends poll last s l e k)
        | inr (d, e) ↦ subst branch (sym e) (
            Ends-weaken Connected (Counts (poll + 1)) (Completed d) (Delivered last) Answered
              (Blames last) (poll_answered c poll (polls poll) d s)
              (λ s2 z. record {
                from = poll + 1;
                adds_up = omega (arith, z);
                few = omega (arith, z);
                silent = λ i m. absurd (omega (arith, z, m));
              })
              (λ r g. (poll, l, rw g.0 e, g.1)) (λ x g q. absurd (g.0 q))
              (poll_answered-Keeps d c poll (polls poll) s))
      ]

  poll_loop-Ends :
      (c : Config) (left poll last : ℕ) (s : State)
      → poll + left ≡ last
      → Counts poll s
      → Ends (λ s2. ⊥) (Delivered last) (Blames last) (poll_loop c polls left poll s)
  unfolding poll_loop
  poll_loop-Ends c zero poll last s e k = λ q. ground (arith, q)
  poll_loop-Ends c (suc left) poll last s e k =
      Ends-bind (Counts (poll + 1)) (λ s2. ⊥) (Delivered last) (Blames last) _ _
        (poll_once-Ends c poll last s (omega (arith, e)) k)
        (λ s2 k2. poll_loop-Ends c left (poll + 1) last s2 (omega (arith, e)) k2)

-- The poll loop always ends. It is done only with an answer of one of its polls that says that the
-- run is completed, and it calls the pod unreachable only after thirty polls in a row without an answer.
pub poll_until_complete-Ends :
    (c : Config) (poll_start : ℕ) (polls : ℕ → Poll)
    → Ends
        (λ s. ⊥)
        (Delivered polls (max_polls c))
        (Blames polls (max_polls c))
        (poll_until_complete c poll_start polls)
unfolding poll_until_complete start
poll_until_complete-Ends c poll_start polls =
    poll_loop-Ends polls c (max_polls c) 0 (max_polls c) (start poll_start) (omega arith) (record {
      from = 0;
      adds_up = refl;
      few = omega arith;
      silent = λ i m. absurd (omega (arith, m));
    })
