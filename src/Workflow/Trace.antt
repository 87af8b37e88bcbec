-- ===== src/Workflow/Trace.antt =====
-- What a trace of calls says: which pod is rented, which pod was rented last, how often each kind of
-- call was made. Traces are newest first.
use sim_swarm.Prelude.{ℕ, suc, true, false, [], ◌∷◌, Option, none, some, ◌≡◌, ◌⊎◌}
use sim_swarm.Prelude.Text.{Text}
use sim_swarm.Workflow.Temporal.{
  Trace, provisioned, health_checked, polled, terminated, finalized, marked_failed,
}

-- The pod that was provisioned and for which no termination has returned since.
abbrev pub held : Trace → Option Text
held [] = none
held (provisioned (some p) ∷ t) = some p
held (terminated p true ∷ t) = none
held (e ∷ t) = held t

-- The pod that was provisioned last.
abbrev pub last_pod : Trace → Option Text
last_pod [] = none
last_pod (provisioned (some p) ∷ t) = some p
last_pod (e ∷ t) = last_pod t

-- Each call was made in its place: no pod is asked for while one is held; health and status are
-- asked of the pod that is held; only the pod provisioned last is terminated; and hand-over is
-- called with the artifacts of a simulation that ran.
abbrev pub InOrder : Trace → Type 0
InOrder [] = Unit
InOrder (provisioned o ∷ t) = (held t ≡ none) × InOrder t
InOrder (health_checked p b ∷ t) = (held t ≡ some p) × InOrder t
InOrder (polled p b ∷ t) = (held t ≡ some p) × InOrder t
InOrder (terminated p b ∷ t) = (last_pod t ≡ some p) × InOrder t
InOrder (finalized ran b ∷ t) = (ran ≡ true) × InOrder t
InOrder (e ∷ t) = InOrder t

-- Every pod was given back by a termination that returned, unless the very last call was to terminate the
-- pod provisioned last, and failed.
abbrev pub GivenBack : Trace → Type 0
GivenBack t =
    (held t ≡ none)
    ⊎ ((p : Text) × (rest : Trace) × (t ≡ terminated p false ∷ rest) × (last_pod rest ≡ some p))

abbrev pub provisions : Trace → ℕ
provisions [] = 0
provisions (provisioned o ∷ t) = suc (provisions t)
provisions (e ∷ t) = provisions t

abbrev pub polls : Trace → ℕ
polls [] = 0
polls (polled p b ∷ t) = suc (polls t)
polls (e ∷ t) = polls t

-- Calls of `mark_failed`.
abbrev pub failure_marks : Trace → ℕ
failure_marks [] = 0
failure_marks (marked_failed m b ∷ t) = suc (failure_marks t)
failure_marks (e ∷ t) = failure_marks t

-- Calls of `upload_and_finalize` that returned.
abbrev pub hand_overs : Trace → ℕ
hand_overs [] = 0
hand_overs (finalized ran true ∷ t) = suc (hand_overs t)
hand_overs (e ∷ t) = hand_overs t
