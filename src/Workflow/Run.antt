-- ===== src/Workflow/Run.antt =====
-- `SimulationWorkflow.run`, call by call. The variable `pod`, which the `finally` block reads, is
-- part of the state, and so is the record of the calls made.
use sim_swarm.Prelude.{
  ℕ, zero, suc, Bool, List, [], ◌∷◌, ◌++◌, Option, none, some, if◌then◌else◌, take, ◌||◌, is_some,
}
use sim_swarm.Prelude.Text.{Text, codes, contains}
use sim_swarm.Workflow.Temporal.{
  Failure, Result, ok, err, Event, Trace, Activities, enriched, derived, provisioned,
  health_checked, polled, slept, terminated, pod_id_cleared, finalized, marked_failed, returned,
  value,
}

pub record State : Type 0 where
  pub pod : Option Text
  pub trace : Trace

abbrev pub M : Type 0 → Type 0
M A = State → Result A × State

unfoldable pub pure : {A : Type 0} → A → M A
pure a s = (ok a, s)

unfoldable pub raise : {A : Type 0} → Failure → M A
raise e s = (err e, s)

infixl 5 ◌>>=◌ ◌>>◌
unfoldable pub ◌>>=◌ : {A B : Type 0} → M A → (A → M B) → M B
◌>>=◌ m f s = let (r, u) = m s in elim r [ ok a ↦ f a u | err e ↦ (err e, u) ]

abbrev pub ◌>>◌ : {A B : Type 0} → M A → M B → M B
m >> k = m >>= λ _. k

-- `try: m except Exception as e: handler`
unfoldable pub catch : {A : Type 0} → M A → (Failure → M A) → M A
catch m handler s = let (r, u) = m s in elim r [ ok a ↦ (ok a, u) | err e ↦ handler e u ]

-- `try: m finally: last`: what `last` raises takes the place of the result.
unfoldable pub finally : {A : Type 0} → M A → M (Unit {0}) → M A
finally m last s =
    let (r, u) = m s in let (q, v) = last u in elim q [ ok _ ↦ (r, v) | err e ↦ (err e, v) ]

-- `pod = p`
unfoldable pub assign_pod : Option Text → M (Unit {0})
assign_pod p s = (ok tt, record s { pod = p })

-- One call: the answer is read at the calls made so far, and the call is noted.
unfoldable pub call : {A : Type 0} → (Trace → Result A) → (Result A → Event) → M A
call answer event s = let r = answer s.trace in (r, record s { trace = event r ∷ s.trace })

-- The walk along `__cause__`: " " before each message.
abbrev pub chain_of : List Text → Text
chain_of [] = []
chain_of (m ∷ ms) = b' ' ∷ (m ++ chain_of ms)

abbrev pub chain_str : Failure → Text
chain_str e = chain_of (e.message ∷ e.causes)

abbrev pub pod_unreachable_marker : Text
pod_unreachable_marker = codes "pod_unreachable"

abbrev pub llm_circuit_breaker_marker : Text
llm_circuit_breaker_marker = codes "llm_circuit_broken"

abbrev pub slow_pod_marker : Text
slow_pod_marker = codes "slow_pod"

-- `is_circuit_breaker or is_slow_pod`
abbrev pub calls_for_swap : Failure → Bool
calls_for_swap e =
    contains llm_circuit_breaker_marker (chain_str e) || contains slow_pod_marker (chain_str e)

abbrev pub is_unreachable : Failure → Bool
is_unreachable e = contains pod_unreachable_marker (chain_str e)

abbrev pub bad_host_max_retries : ℕ
bad_host_max_retries = 1

abbrev pub circuit_breaker_max_retries : ℕ
circuit_breaker_max_retries = 1

abbrev pub pod_unreachable_max_retries : ℕ
pod_unreachable_max_retries = 2

-- The fields of `SimParams` that the workflow itself reads.
pub record SimParams : Type 0 where
  pub seed_text : Text
  pub enrich_web : Bool

module _ {Markets Payload : Type 0} (acts : Activities Markets Payload) where
  open acts use {
    enrich_seed, derive_markets, provision_pod, wait_for_worker_health, submit_and_poll,
    terminate_pod, clear_pod_id, upload_and_finalize, mark_failed,
  }

  abbrev pub terminate : Text → M (Unit {0})
  terminate p = call (λ t. terminate_pod t p) (λ r. terminated p (returned r))

  abbrev pub mark : Text → M (Unit {0})
  mark message = call (λ t. mark_failed t message) (λ r. marked_failed message (returned r))

  abbrev pub provision : Markets → M Text
  provision markets = call (λ t. provision_pod t markets) (λ r. provisioned (value r))

  abbrev pub wait_health : Text → M (Unit {0})
  wait_health p = call (λ t. wait_for_worker_health t p) (λ r. health_checked p (returned r))

  abbrev pub submit : Text → Markets → M Payload
  submit p markets = call (λ t. submit_and_poll t p markets) (λ r. polled p (returned r))

  abbrev pub clear : M (Unit {0})
  clear = call clear_pod_id (λ r. pod_id_cleared (returned r))

  abbrev pub sleep : ℕ → M (Unit {0})
  sleep seconds = call (λ t. ok tt) (λ r. slept seconds)

  abbrev pub finalize : Option Payload → M (Unit {0})
  finalize result =
      call (λ t. upload_and_finalize t result) (λ r. finalized (is_some result) (returned r))

  -- Phase 1: the `try` block before any pod exists.
  unfoldable pub pre_gpu : SimParams → M Markets
  pre_gpu params = do
    enriched_seed ←
        if params.enrich_web
        then call (λ t. enrich_seed t params.seed_text) (λ r. enriched (returned r))
        else pure params.seed_text
    call (λ t. derive_markets t enriched_seed) (λ r. derived (returned r))

  -- `for bad_host_attempt in range(BAD_HOST_MAX_RETRIES + 1)`, with the retries that are left.
  unfoldable pub provision_healthy : ℕ → Markets → M Text
  provision_healthy zero markets = do
    p ← provision markets
    assign_pod (some p)
    wait_health p
    pure p
  provision_healthy (suc left) markets = do
    p ← provision markets
    assign_pod (some p)
    catch (wait_health p >> pure p)
        λ e. do terminate p; assign_pod none; provision_healthy left markets

  -- The branch that swaps the pod; `none` is `result is None` with `swap_pods` set.
  unfoldable pub swap_or_raise : ℕ → Text → Failure → M (Option Payload)
  swap_or_raise cb_left p e =
      if calls_for_swap e
      then elim cb_left [
        | zero ↦ raise e
        | suc _ ↦ do terminate p; clear; assign_pod none; pure none
      ]
      else raise e

  -- `for unreachable_attempt in range(POD_UNREACHABLE_MAX_RETRIES + 1)`, with the retries left.
  unfoldable pub poll_pod : ℕ → ℕ → Text → Markets → M (Option Payload)
  unfolding swap_or_raise
  poll_pod zero cb_left p markets =
      catch (submit p markets >>= λ result. pure (some result)) (swap_or_raise cb_left p)
  poll_pod (suc left) cb_left p markets =
      catch (submit p markets >>= λ result. pure (some result)) λ e.
        let again = sleep 30 >> poll_pod left cb_left p markets in
        if is_unreachable e then again else swap_or_raise cb_left p e

  -- `for cb_attempt in range(CIRCUIT_BREAKER_MAX_RETRIES + 1)`, with the retries that are left.
  unfoldable pub gpu_loop : ℕ → Markets → M (Option Payload)
  unfolding provision_healthy poll_pod
  gpu_loop zero markets = do
    p ← provision_healthy bad_host_max_retries markets
    poll_pod pod_unreachable_max_retries zero p markets
  gpu_loop (suc left) markets = do
    p ← provision_healthy bad_host_max_retries markets
    result ← poll_pod pod_unreachable_max_retries (suc left) p markets
    elim result [ some r ↦ pure (some r) | none ↦ gpu_loop left markets ]

  -- The `try` block of phase 2.
  unfoldable pub gpu_body : Markets → M (Unit {0})
  unfolding gpu_loop
  gpu_body markets = do result ← gpu_loop circuit_breaker_max_retries markets; finalize result

  -- `if pod is not None: terminate_pod`
  unfoldable pub release_pod : M (Unit {0})
  release_pod s = elim s.pod [ none ↦ (ok tt, s) | some p ↦ terminate p s ]

  -- Phase 2: the GPU lifecycle.
  unfoldable pub gpu_phase : Markets → M (Unit {0})
  unfolding gpu_body release_pod
  gpu_phase markets =
      finally (catch (gpu_body markets) λ e. do mark (take 4096 e.message); raise e) release_pod

  -- `SimulationWorkflow.run`
  unfoldable pub run : SimParams → M (Unit {0})
  unfolding pre_gpu gpu_phase
  run params = do
    markets ←
        catch (pre_gpu params)
          λ e. do mark (codes "pre_gpu_failed: " ++ take 4000 e.message); raise e
    gpu_phase markets

abbrev pub start : State
start = record { pod = none; trace = [] }
