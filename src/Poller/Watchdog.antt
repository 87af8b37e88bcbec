-- ===== src/Poller/Watchdog.antt =====
-- saas/jobs/pipeline.py: what the round-progress watchdog takes for progress.
use sim_swarm.Prelude.{ℕ, ◌≡◌, refl, [], ◌∷◌, none, some, arith, subst, sym}
use sim_swarm.Poller.Logs.{Live}
use sim_swarm.Poller.State.{Config, State, slow_pod, next, write_live}
use sim_swarm.Poller.Turn.{◌>>=◌, write_changes, advance, chat_count}
use sim_swarm.Poller.Rules.{Ends, Ends-bind}

-- A poll of the logs that shows no round makes the loop forget the round it had seen.
round_forgotten :
    (c : Config) (now r : ℕ) (live : Live) (s : State)
    → s.last_round ≡ some r
    → live.round ≡ none
    → write_changes c now live s
      ≡ next
          (record s {
            last_round = none;
            last_log_lines = live.log_lines;
            last_chat_count = chat_count live;
          })
          (write_live live ∷ [])
unfolding write_changes ◌>>=◌
round_forgotten c now r live s e n = ground (arith, e, n)

-- With no round seen, any round counts as progress.
any_round :
    (c : Config) (now q : ℕ) (live : Live) (s : State)
    → s.last_round ≡ none
    → live.round ≡ some q
    → Ends
        (λ s2. s2.last_round_progress_at ≡ now)
        (λ r. ⊥)
        (λ e. e ≡ slow_pod)
        (write_changes c now live s)
unfolding write_changes ◌>>=◌ advance
any_round c now q live s e n = ground (arith, e, n)

-- Once a round has been seen, two polls of the logs set the watchdog back, whatever rounds they
-- tell: if the first shows no round and the second any round, even a smaller one, then the time of
-- the second counts as the time of the last progress, or the pod is found too slow.
pub watchdog_restarts :
    (c : Config) (now later r q : ℕ) (live again : Live) (s : State)
    → s.last_round ≡ some r
    → live.round ≡ none
    → again.round ≡ some q
    → Ends
        (λ s2. s2.last_round_progress_at ≡ later)
        (λ r. ⊥)
        (λ e. e ≡ slow_pod)
        (write_changes c now live s >>= λ s2. write_changes c later again s2)
watchdog_restarts c now later r q live again s e n m =
    Ends-bind (λ s2. s2.last_round ≡ none) _ _ _ _ _
      (subst (Ends (λ s2. s2.last_round ≡ none) (λ r. ⊥) (λ e. e ≡ slow_pod))
        (sym (round_forgotten c now r live s e n)) refl)
      (λ s2 z. any_round c later q again s2 z m)
