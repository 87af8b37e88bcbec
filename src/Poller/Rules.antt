-- ===== src/Poller/Rules.antt =====
-- saas/jobs/pipeline.py: how a turn of the poll loop can end, and the rules for its parts.
use sim_swarm.Prelude.{
  ℕ, ◌≡◌, ◌≢◌, refl, true, List, [], ◌++◌, if-split, get_or, not, ◌==◌, ◌%◌, arith,
}
use sim_swarm.Prelude.Text.{Text, text_eq, codes}
use sim_swarm.Poller.Logs.{Live}
use sim_swarm.Poller.State.{
  Config, Status, Poll, State, Error, pod_unreachable, timed_out, Turn, next, done, raises,
}
use sim_swarm.Poller.Turn.{
  ◌>>=◌, poll_answered, beat, watch, fire_running, break_circuit, tell_stage, advance,
  write_changes, read_logs, conclude, live_status, is_changed, advances,
}

-- A turn that goes on, is done or raises only as the three predicates say.
abbrev pub Ends : (State → Type 0) → (Status → Type 0) → (Error → Type 0) → Turn → Type 0
Ends Q D R (next s calls) = Q s
Ends Q D R (done r calls) = D r
Ends Q D R (raises e calls) = R e

pub Ends-bind :
    (P Q : State → Type 0) (D : Status → Type 0) (R : Error → Type 0) (t : Turn) (f : State → Turn)
    → Ends P D R t
    → ((s : State) → P s → Ends Q D R (f s))
    → Ends Q D R (t >>= f)
unfolding ◌>>=◌
Ends-bind P Q D R (next s calls) f h k = added (f s) (k s h)
  where
    added :
        (u : Turn)
        → Ends Q D R u
        → Ends Q D R (elim u [
          | next s2 more ↦ next s2 (calls ++ more)
          | done r more ↦ done r (calls ++ more)
          | raises e more ↦ raises e (calls ++ more)
        ])
    added (next s2 more) g = g
    added (done r more) g = g
    added (raises e more) g = g
Ends-bind P Q D R (done r calls) f h k = h
Ends-bind P Q D R (raises e calls) f h k = h

pub Ends-weaken :
    (P Q : State → Type 0) (D F : Status → Type 0) (R S : Error → Type 0) (t : Turn)
    → ((s : State) → P s → Q s)
    → ((r : Status) → D r → F r)
    → ((e : Error) → R e → S e)
    → Ends P D R t
    → Ends Q F S t
Ends-weaken P Q D F R S (next s calls) a b c h = a s h
Ends-weaken P Q D F R S (done r calls) a b c h = b r h
Ends-weaken P Q D F R S (raises e calls) a b c h = c e h

-- No poll is failing.
abbrev pub Connected : State → Type 0
Connected s = s.consecutive_failures ≡ 0

-- An error of the pod that did answer.
abbrev pub Answered : Error → Type 0
Answered e = (e ≢ pod_unreachable) × (e ≢ timed_out)

module _ (d : Status) where
  -- The turn is done only with the answer `d`, which says that the run is completed.
  abbrev pub Completed : Status → Type 0
  Completed r = (r ≡ d) × (text_eq r.status (codes "completed") ≡ true)

  Keeps : (State → Turn) → Type 0
  Keeps f = (s : State) → Connected s → Ends Connected Completed Answered (f s)

  Keeps-bind :
      (t : Turn) (f : State → Turn)
      → Ends Connected Completed Answered t
      → Keeps f
      → Ends Connected Completed Answered (t >>= f)
  unfolding Keeps
  Keeps-bind t f h k = Ends-bind Connected Connected Completed Answered t f h k

  beat-Keeps : (c : Config) (now : ℕ) → Keeps (beat c now)
  unfolding Keeps beat
  beat-Keeps c now s h = ground (arith, h)

  watch-Keeps : (c : Config) (now : ℕ) → Keeps (watch c now)
  unfolding Keeps watch
  watch-Keeps c now s h = ground (arith, h)

  fire_running-Keeps : (c : Config) → Keeps (fire_running c d)
  unfolding Keeps fire_running
  fire_running-Keeps c s h = ground (arith, h)

  break_circuit-Keeps : (now : ℕ) (log_lines : List Text) → Keeps (break_circuit now log_lines)
  unfolding Keeps break_circuit
  break_circuit-Keeps now log_lines s h = ground (arith, h)

  tell_stage-Keeps : (c : Config) (log_lines : List Text) → Keeps (tell_stage c log_lines)
  unfolding Keeps tell_stage
  tell_stage-Keeps c log_lines s h = ground (arith, h)

  advance-Keeps : (c : Config) (now new_round : ℕ) → Keeps (advance c now new_round)
  unfolding Keeps advance
  advance-Keeps c now new_round s h = ground (arith, h)

  write_changes-Keeps : (c : Config) (now : ℕ) (live : Live) → Keeps (write_changes c now live)
  unfolding Keeps write_changes
  write_changes-Keeps c now live s h =
      if-split (Ends Connected Completed Answered) (not (is_changed live s)) (next s []) _ (λ y. h)
        (λ n.
          Keeps-bind _ _
            (if-split (Ends Connected Completed Answered) (advances live.round s.last_round)
              (advance c now (get_or live.round 0) s) (next s [])
              (λ y. advance-Keeps c now (get_or live.round 0) s h) (λ m. h))
            (λ s2 h2. h2))

  read_logs-Keeps : (c : Config) (p : Poll) → Keeps (read_logs c p)
  unfolding Keeps read_logs
  read_logs-Keeps c p s h = Keeps-bind _ _ (break_circuit-Keeps p.now p.log_lines s h) (λ s2 h2.
      Keeps-bind _ _ (tell_stage-Keeps c p.log_lines s2 h2)
        (λ s3 h3. write_changes-Keeps c p.now (live_status c p s3) s3 h3))

  conclude-Keeps : Keeps (conclude d)
  unfolding Keeps conclude
  conclude-Keeps s h = ground (arith, h)

  -- A turn with an answer goes on with no failures counted, is done only with an answer that says
  -- so, and raises what the answered pod did wrong.
  pub poll_answered-Keeps :
      (c : Config) (poll : ℕ) (p : Poll) (s : State)
      → Ends Connected Completed Answered (poll_answered c poll p d s)
  unfolding Keeps poll_answered
  poll_answered-Keeps c poll p s = Keeps-bind _ _ (beat-Keeps c p.now _ refl) (λ s2 h2.
      Keeps-bind _ _ (watch-Keeps c p.now s2 h2) (λ s3 h3.
        Keeps-bind _ _ (fire_running-Keeps c s3 h3) (λ s4 h4.
          Keeps-bind _ _
            (if-split (Ends Connected Completed Answered) (poll % 2 == 0) (read_logs c p s4)
              (next s4 []) (λ y. read_logs-Keeps c p s4 h4) (λ n. h4))
            (λ s5 h5. conclude-Keeps s5 h5))))
