-- ===== src/Workflow/Temporal.antt =====
-- What Temporal gives to a workflow: each activity of saas/workflows/activities is called with its
-- arguments and, after the attempts of its retry policy and within its timeouts, returns or raises.
-- The answers are a parameter: a function of all that was called before, so any behaviour is covered.
-- Cancellation of a whole workflow is left out.
use sim_swarm.Prelude.{ℕ, Bool, true, false, List, Option, none, some, ◌≡◌, refl, ◌⊎◌, inl, inr}
use sim_swarm.Prelude.Text.{Text}

-- An exception: `str(e)` and those of its causes, outermost first.
pub record Failure : Type 0 where
  pub message : Text
  pub causes : List Text

pub data Result {ℓ} (A : Type ℓ) : Type ℓ where
  ok : A → Result A
  err : Failure → Result A

-- The calls of a workflow, with what came back: the new pod's id, or whether the activity returned.
pub data Event : Type 0 where
  enriched : Bool → Event
  derived : Bool → Event
  provisioned : Option Text → Event
  health_checked : Text → Bool → Event
  polled : Text → Bool → Event
  slept : ℕ → Event
  terminated : Text → Bool → Event
  pod_id_cleared : Bool → Event
  finalized : Bool → Bool → Event
  marked_failed : Text → Bool → Event

-- Newest first.
abbrev pub Trace : Type 0
Trace = List Event

-- The answers. `Markets` and `Payload` are the JSON values that derive_markets and submit_and_poll
-- return; the workflow only hands them on.
pub record Activities (Markets Payload : Type 0) : Type 0 where
  pub enrich_seed : Trace → Text → Result Text
  pub derive_markets : Trace → Text → Result Markets
  pub provision_pod : Trace → Markets → Result Text
  pub wait_for_worker_health : Trace → Text → Result (Unit {0})
  pub submit_and_poll : Trace → Text → Markets → Result Payload
  pub terminate_pod : Trace → Text → Result (Unit {0})
  pub clear_pod_id : Trace → Result (Unit {0})
  pub upload_and_finalize : Trace → Option Payload → Result (Unit {0})
  pub mark_failed : Trace → Text → Result (Unit {0})

abbrev pub returned {ℓ} : {A : Type ℓ} → Result A → Bool
returned (ok a) = true
returned (err e) = false

abbrev pub value {ℓ} : {A : Type ℓ} → Result A → Option A
value (ok a) = some a
value (err e) = none

pub Result-cases {ℓ} :
    {A : Type ℓ} (r : Result A) → ((a : A) × (r ≡ ok a)) ⊎ ((e : Failure) × (r ≡ err e))
Result-cases (ok a) = inl (a, refl)
Result-cases (err e) = inr (e, refl)
