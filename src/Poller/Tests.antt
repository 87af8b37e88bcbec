-- ===== src/Poller/Tests.antt =====
-- saas/jobs/pipeline.py and status.py at concrete inputs.
use sim_swarm.Prelude.{
  ℕ, ◌+◌, ◌*◌, ◌≡◌, refl, true, List, [], ◌∷◌, none, some, All, arith, ltb, if◌then◌else◌,
}
use sim_swarm.Prelude.Text.{Text, codes, starts_with}
use sim_swarm.Poller.Logs.{Live, round_of, best_round, extract_live_status}
use sim_swarm.Poller.Rounds.{Told, Bounds, extract-greatest}
use sim_swarm.Poller.State.{
  Config, Status, Poll, pod_unreachable, slow_pod, raises, not_ok, max_polls, start,
}
use sim_swarm.Poller.Turn.{◌>>=◌, poll_loop, poll_until_complete, write_changes}
use sim_swarm.Poller.Outage.{outage-gives_up}
use sim_swarm.Poller.Rules.{Ends}
use sim_swarm.Poller.Finish.{Delivered, Blames, poll_until_complete-Ends}
use sim_swarm.Poller.Watchdog.{watchdog_restarts}

abbrev config : Config
config = record {
  timeout_seconds = 2700;
  tier = some (codes "small");
  max_rounds = some 15;
  has_stage_callback = true;
  has_heartbeat_callback = true;
  has_status_callback = true;
}

abbrev silent_poll : ℕ → Poll
silent_poll i = record { status = none; now = 100 + 10 * i; log_lines = []; chat = not_ok }

abbrev completed_status : Status
completed_status = record {
  status = codes "completed";
  error = [];
  report = codes "r";
  chat_log = codes "[]";
  graph_data = codes "{}";
  structured = codes "{}";
  sim_data_uploaded = true;
}

-- Four polls without an answer, then the end.
abbrev brief_outage : ℕ → Poll
brief_outage i = record (silent_poll i) { status = if ltb i 4 then none else some completed_status }

outage-gives_up_example :
    poll_loop config silent_poll 51 3 (record (start 100) { consecutive_failures = 3 })
    ≡ raises pod_unreachable []
unfolding start
outage-gives_up_example =
    outage-gives_up silent_poll config 26 50 3 (record (start 100) { consecutive_failures = 3 })
      refl (ground arith) (λ i l. refl)

poll_until_complete-Ends_example :
    Ends
      (λ s. ⊥)
      (Delivered brief_outage (max_polls config))
      (Blames brief_outage (max_polls config))
      (poll_until_complete config 100 brief_outage)
poll_until_complete-Ends_example = poll_until_complete-Ends config 100 brief_outage

abbrev two_lines : List Text
two_lines =
    codes "INFO Round 4 begins now" ∷ codes "round=12 llm.chat ok" ∷ codes "playground=99" ∷ []

extract-greatest_example :
    ((n : ℕ) → (extract_live_status two_lines none).round ≡ some n → Told n two_lines)
    × All (Bounds (extract_live_status two_lines none).round) two_lines
extract-greatest_example = extract-greatest two_lines none

round_twelve : (extract_live_status two_lines none).round ≡ some 12
unfolding extract_live_status best_round round_of starts_with
round_twelve = refl

abbrev no_round : Live
no_round = record { log_lines = []; round = none; max_rounds = some 15; partial_chat = none }

watchdog_restarts_example :
    Ends
      (λ s2. s2.last_round_progress_at ≡ 520)
      (λ r. ⊥)
      (λ e. e ≡ slow_pod)
      (write_changes config 500 no_round (record (start 100) { last_round = some 5 }) >>= λ s2.
        write_changes config 520 (record no_round { round = some 5 }) s2)
unfolding start
watchdog_restarts_example =
    watchdog_restarts config 500 520 5 5 no_round (record no_round { round = some 5 })
      (record (start 100) { last_round = some 5 }) refl refl refl
