-- ===== src/Poller/Turn.antt =====
-- saas/jobs/pipeline.py: one turn of the loop of `poll_until_complete`, part by part in its order, and
-- the loop, which recurs on the polls that are left.
use sim_swarm.Prelude.{
  ℕ, zero, suc, ◌+◌, ◌*◌, ◌-◌, ◌%◌, Bool, true, false, List, [], ◌∷◌, ◌++◌, Option, none, some,
  ◌&&◌, ◌||◌, not, ltb, leb, ◌==◌, if◌then◌else◌, select, length, sum_by, get_or, take,
}
use sim_swarm.Prelude.Text.{Text, codes, text_eq}
use sim_swarm.Poller.Logs.{
  Live, infer_pipeline_stage, extract_live_status, is_error_line, is_llm_line,
}
use sim_swarm.Poller.State.{
  Config, Status, messages, not_ok, no_answer, Poll, Sample, State, start, heartbeat, set_running,
  stage, write_live, pod_unreachable, stuck, llm_circuit_broken, slow_pod, timed_out, worker_failed,
  Turn, next, done, raises, max_polls, stuck_threshold_s, min_rounds_per_min, heartbeat_interval_s,
  max_consecutive_poll_failures, llm_circuit_breaker_window_s, llm_circuit_breaker_min_samples,
  slow_pod_window_s, slow_pod_min_round_delta,
}

-- One part after another: calls add up, and what is done or raises ends the turn.
infixr 4 ◌>>=◌
unfoldable pub ◌>>=◌ : Turn → (State → Turn) → Turn
next s calls >>= f = elim (f s) [
  | next s2 more ↦ next s2 (calls ++ more)
  | done r more ↦ done r (calls ++ more)
  | raises e more ↦ raises e (calls ++ more)
]
done r calls >>= f = done r calls
raises e calls >>= f = raises e calls

-- `/status` gave no answer.
unfoldable pub poll_failed : State → Turn
poll_failed s =
    let failures = s.consecutive_failures + 1 in
    if leb max_consecutive_poll_failures failures
    then raises pod_unreachable []
    else next (record s { consecutive_failures = failures }) []

unfoldable pub beat : Config → ℕ → State → Turn
beat c now s =
    if leb heartbeat_interval_s (now - s.last_heartbeat_time) && c.has_heartbeat_callback
    then next (record s { last_heartbeat_time = now }) (heartbeat ∷ [])
    else next s []

-- The round-progress watchdog.
unfoldable pub watch : Config → ℕ → State → Turn
watch c now s =
    if ltb 0 (get_or s.last_round 0) && ltb (stuck_threshold_s c) (now - s.last_round_progress_at)
    then raises stuck []
    else next s []

unfoldable pub fire_running : Config → Status → State → Turn
fire_running c status s =
    if not s.running_fired && text_eq status.status (codes "running") && c.has_status_callback
    then next (record s { running_fired = true }) (set_running ∷ [])
    else next s []

-- `while samples and samples[0][0] < now - window: samples.popleft()`
unfoldable pub drop_old {ℓ} : {A : Type ℓ} → (A → ℕ) → ℕ → ℕ → List A → List A
drop_old time window now [] = []
drop_old time window now (x ∷ samples) =
    let rest = drop_old time window now samples in
    if ltb (time x + window) now then rest else x ∷ samples

-- The error-rate circuit breaker.
unfoldable pub break_circuit : ℕ → List Text → State → Turn
break_circuit now log_lines s =
    let err_count = length (select is_error_line log_lines) in
    let total_count = length (select is_llm_line log_lines) in
    let samples =
      drop_old (λ (x : Sample). x.0) llm_circuit_breaker_window_s now
        (if ltb 0 total_count
          then s.llm_samples ++ (now, err_count, total_count) ∷ []
          else s.llm_samples) in
    let win_err = sum_by (λ (x : Sample). x.1) samples in
    let win_total = sum_by (λ (x : Sample). x.2) samples in
    if leb llm_circuit_breaker_min_samples win_total && ltb (7 * win_total) (10 * win_err)
    then raises llm_circuit_broken []
    else next (record s { llm_samples = samples }) []

-- `stage is not None and stage != last_stage`
abbrev is_news : ℕ → Option ℕ → Bool
is_news n none = true
is_news n (some m) = not (n == m)

unfoldable pub tell_stage : Config → List Text → State → Turn
tell_stage c log_lines s = elim (infer_pipeline_stage log_lines) [
  | none ↦ next s []
  | some n ↦
      if is_news n s.last_stage
      then next (record s { last_stage = some n })
          (if c.has_stage_callback then stage n ∷ [] else [])
      else next s []
]

-- The `live` dictionary, with the chat from stage 3 on.
unfoldable pub live_status : Config → Poll → State → Live
live_status c p s =
    let live = extract_live_status p.log_lines c.max_rounds in
    if leb 3 (get_or s.last_stage 0)
    then elim p.chat [
      | messages m ↦ record live { partial_chat = some m }
      | not_ok ↦ live
      | no_answer ↦ record live { partial_chat = some [] }
    ]
    else live

-- `new_round is not None and (_last_round is None or new_round > _last_round)`
abbrev pub advances : Option ℕ → Option ℕ → Bool
advances none last = false
advances (some n) none = true
advances (some n) (some m) = ltb m n

abbrev last_sample : ℕ × ℕ → List (ℕ × ℕ) → ℕ × ℕ
last_sample x [] = x
last_sample x (y ∷ samples) = last_sample y samples

-- Whether the samples tell a pod that is too slow.
unfoldable pub is_slow : Config → List (ℕ × ℕ) → Bool
is_slow c [] = false
is_slow c ((first_ts, first_round) ∷ []) = false
is_slow c ((first_ts, first_round) ∷ x ∷ samples) =
    let (last_ts, last_round) = last_sample x samples in
    let round_delta = last_round - first_round in
    let seconds = last_ts - first_ts in
    leb slow_pod_min_round_delta round_delta
    && ltb 0 seconds
    && ltb (round_delta * 60 * 10) (min_rounds_per_min c * seconds)

-- An advance: the watchdog is set back, and the slow-pod detector looks.
unfoldable pub advance : Config → ℕ → ℕ → State → Turn
advance c now new_round s =
    let samples =
      drop_old (λ (x : ℕ × ℕ). x.0) slow_pod_window_s now
        (s.round_samples ++ (now, new_round) ∷ []) in
    if is_slow c samples
    then raises slow_pod []
    else next (record s { last_round_progress_at = now; round_samples = samples }) []

abbrev round_eq : Option ℕ → Option ℕ → Bool
round_eq none none = true
round_eq none (some m) = false
round_eq (some n) none = false
round_eq (some n) (some m) = n == m

abbrev lines_eq : List Text → List Text → Bool
lines_eq [] [] = true
lines_eq [] (y ∷ ys) = false
lines_eq (x ∷ xs) [] = false
lines_eq (x ∷ xs) (y ∷ ys) = text_eq x y && lines_eq xs ys

abbrev pub chat_count : Live → ℕ
chat_count live = length (get_or live.partial_chat [])

abbrev pub is_changed : Live → State → Bool
is_changed live s =
    not (round_eq live.round s.last_round)
    || not (lines_eq live.log_lines s.last_log_lines)
    || not (chat_count live == s.last_chat_count)

-- The write of the live status, when something has changed.
unfoldable pub write_changes : Config → ℕ → Live → State → Turn
write_changes c now live s =
    if not (is_changed live s)
    then next s []
    else (if advances live.round s.last_round
        then advance c now (get_or live.round 0) s
        else next s [])
      >>= λ s2.
          next
            (record s2 {
              last_round = live.round;
              last_log_lines = live.log_lines;
              last_chat_count = chat_count live;
            })
            (write_live live ∷ [])

-- The part of every second poll.
unfoldable pub read_logs : Config → Poll → State → Turn
read_logs c p s = break_circuit p.now p.log_lines s >>= λ s2.
    tell_stage c p.log_lines s2 >>= λ s3. write_changes c p.now (live_status c p s3) s3

-- `raw_error.split("\n")[0]`
abbrev first_line : Text → Text
first_line [] = []
first_line (ch ∷ s) = let rest = first_line s in if ch == 10 then [] else ch ∷ rest

-- The end of a turn: what the status says.
unfoldable pub conclude : Status → State → Turn
conclude status s =
    if text_eq status.status (codes "completed")
    then done status []
    else if text_eq status.status (codes "failed")
    then raises (worker_failed (take 200 (first_line status.error))) []
    else next s []

-- A turn whose `/status` gave an answer.
unfoldable pub poll_answered : Config → ℕ → Poll → Status → State → Turn
poll_answered c poll p status s = beat c p.now (record s { consecutive_failures = 0 }) >>= λ s2.
    watch c p.now s2 >>= λ s3. fire_running c status s3 >>= λ s4.
    (if poll % 2 == 0 then read_logs c p s4 else next s4 []) >>= λ s5. conclude status s5

-- The two branches of the first `try`.
abbrev pub poll_branch : Config → ℕ → Poll → State → Option Status → Turn
poll_branch c poll p s none = poll_failed s
poll_branch c poll p s (some status) = poll_answered c poll p status s

unfoldable pub poll_once : Config → ℕ → Poll → State → Turn
poll_once c poll p s = poll_branch c poll p s p.status

-- The loop: polls left, polls made, what they find, and the calls so far.
unfoldable pub poll_loop : Config → (ℕ → Poll) → ℕ → ℕ → State → Turn
poll_loop c polls zero poll s = raises timed_out []
poll_loop c polls (suc left) poll s =
    poll_once c poll (polls poll) s >>= λ s2. poll_loop c polls left (poll + 1) s2

-- `poll_until_complete`
unfoldable pub poll_until_complete : Config → ℕ → (ℕ → Poll) → Turn
poll_until_complete c poll_start polls = poll_loop c polls (max_polls c) 0 (start poll_start)
