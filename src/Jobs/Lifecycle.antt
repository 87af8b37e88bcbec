-- ===== src/Jobs/Lifecycle.antt =====
-- What any write, and any interleaving of writes, does to the states of the rows.
use sim_swarm.Prelude.{
  Bool, true, [], ◌∷◌, ◌≡◌, is_some, List, false, if◌then◌else◌, All, leb, refl, ◌≢◌, ◌⊎◌, inl,
  arith,
}
use sim_swarm.Jobs.Row.{
  Job, JobStatus, provisioning, running, reporting, completed, failed, refunded,
}
use sim_swarm.Jobs.Store.{
  Table, Link, unset, broken, up, swallow, strict, table_after, update_where,
}
use sim_swarm.Jobs.Sync.{
  mark_job_failed_sync, save_job_results, update_job_retry_sync, transition_to_reporting,
  save_report_result,
}
use sim_swarm.Jobs.Progress.{
  update_pipeline_stage_sync, update_heartbeat_sync, update_live_status_sync, update_pod_id,
  clear_pod_id, update_sim_data_available, update_enrichment_sync, update_markets_config_sync,
  transition_to_running,
}
use sim_swarm.Jobs.Async.{
  mark_job_failed, update_pipeline_stage, async_update_pod_id, update_job_metadata,
  update_heartbeat, update_enrichment, update_job_retry,
}
use sim_swarm.Jobs.Writer

-- A relation between the rows of two tables, row by row.
abbrev pub Rows : (Job → Job → Type 0) → Table → Table → Type 0
Rows R [] [] = Unit
Rows R [] (k ∷ u) = ⊥
Rows R (j ∷ t) [] = ⊥
Rows R (j ∷ t) (k ∷ u) = R j k × Rows R t u

module _ (R : Job → Job → Type 0) (same : (j : Job) → R j j) where
  Rows-refl : (t : Table) → Rows R t t
  Rows-refl [] = tt
  Rows-refl (j ∷ t) = (same j, Rows-refl t)

  module _ (p : Job → Bool) (f : Job → Job) (step : (j : Job) → p j ≡ true → R j (f j)) where
    update_where-Rows : (t : Table) → Rows R t (update_where p f t)
    unfolding update_where
    update_where-Rows [] = tt
    update_where-Rows (j ∷ t) = ground (arith, same j, step j, update_where-Rows t)

    swallow-Rows : (l : Link) (t : Table) → Rows R t (swallow l (update_where p f) t)
    swallow-Rows unset t = Rows-refl t
    swallow-Rows broken t = Rows-refl t
    swallow-Rows up t = update_where-Rows t

    strict-Rows : (l : Link) (t : Table) → Rows R t (table_after t (strict l (update_where p f) t))
    strict-Rows unset t = Rows-refl t
    strict-Rows broken t = Rows-refl t
    strict-Rows up t = update_where-Rows t

swallow_if-Rows :
    (R : Job → Job → Type 0) (b : Bool) (f g : Table → Table) (l : Link) (t : Table)
    → (b ≡ true → Rows R t (swallow l f t))
    → (b ≡ false → Rows R t (swallow l g t))
    → Rows R t (swallow l (if b then f else g) t)
swallow_if-Rows R true f g l t h k = h refl
swallow_if-Rows R false f g l t h k = k refl

-- How each write may change the state of a row: from which states it enters which. Retries and new
-- pods, and the stage of the asynchronous callers, test nothing; the writes not listed never change a
-- state.
abbrev pub Moves : Writer.Write → JobStatus → JobStatus → Type 0
Moves (Writer.fail_sync i e n) s u = (u ≡ failed) × (s ≢ completed) × (s ≢ refunded)
Moves (Writer.fail_async i e n) s u = (u ≡ failed) × (s ≢ completed) × (s ≢ refunded)
Moves (Writer.retry_sync i n) s u = u ≡ provisioning
Moves (Writer.retry_async i n) s u = u ≡ provisioning
Moves (Writer.pod_sync i p g) s u = u ≡ provisioning
Moves (Writer.pod_async i p g) s u = u ≡ provisioning
Moves (Writer.to_running i) s u = (u ≡ running) × (s ≡ provisioning)
Moves (Writer.stage_sync i n) s u = (u ≡ running) × (s ≢ completed)
Moves (Writer.stage_async i n) s u = (u ≡ running) × (leb 1 n ≡ true)
Moves (Writer.to_reporting i) s u = (u ≡ reporting) × ((s ≡ running) ⊎ (s ≡ provisioning))
Moves (Writer.save_report i r s2 k n) s u = (u ≡ completed) × (s ≡ reporting)
Moves w s u = ⊥

-- A finished row says when it finished; a completed one has its report, a failed one its error.
pub record IsFinished (j : Job) : Type 0 where
  pub completed_row :
      j.status ≡ completed
      → (is_some j.completed_at ≡ true)
        × (is_some j.result_report ≡ true)
        × (is_some j.result_structured ≡ true)
  pub failed_row :
      j.status ≡ failed → (is_some j.completed_at ≡ true) × (is_some j.error_message ≡ true)

-- What a completed row delivers.
abbrev pub SameDelivery : Job → Job → Type 0
SameDelivery j k =
    (k.status ≡ completed)
    × (k.result_report ≡ j.result_report)
    × (k.result_structured ≡ j.result_structured)
    × (k.result_chat_log ≡ j.result_chat_log)
    × (k.result_graph ≡ j.result_graph)
    × (k.key_insight ≡ j.key_insight)
    × (k.completed_at ≡ j.completed_at)

-- The writes with no test of the state that set the state themselves.
abbrev pub reopens : Writer.Write → Bool
reopens (Writer.retry_sync i n) = true
reopens (Writer.pod_sync i p g) = true
reopens (Writer.stage_async i s) = leb 1 s
reopens (Writer.pod_async i p g) = true
reopens (Writer.retry_async i n) = true
reopens w = false

-- What one write may do to a row: the owner and the key stay, the state stays or moves as
-- this write may move it, and a row that the write does not name stays whole.
pub record Evolves (w : Writer.Write) (j k : Job) : Type 0 where
  pub same_id : k.id ≡ j.id
  pub same_owner : k.user_id ≡ j.user_id
  pub moves : (k.status ≡ j.status) ⊎ Moves w j.status k.status
  pub frame : Writer.target w ≢ j.id → k ≡ j
  pub finished : IsFinished j → IsFinished k
  pub delivered : reopens w ≡ false → j.status ≡ completed → SameDelivery j k

Evolves-refl : (w : Writer.Write) (j : Job) → Evolves w j j
Evolves-refl w j = record {
  same_id = refl;
  same_owner = refl;
  moves = inl refl;
  frame = λ h. refl;
  finished = λ v. v;
  delivered = λ r h. (h, refl, refl, refl, refl, refl, refl);
}

-- Under any write, in any state of the link, every row keeps its key and owner, and its state stays or
-- moves as that write may move it: RUNNING is entered from PROVISIONING only, or by the stage of a task
-- from any state but COMPLETED, or by the stage of an asynchronous caller, which tests no state;
-- REPORTING from RUNNING and PROVISIONING, COMPLETED from REPORTING, FAILED not from COMPLETED or
-- REFUNDED, and PROVISIONING, by a retry or a new pod, from any state. A row that the write does not
-- name stays whole, a row that is finished properly stays so, and unless the write is one of those that
-- test nothing, a completed row stays completed with what it delivers.
pub perform-Evolves :
    (w : Writer.Write) (l : Link) (t : Table) → Rows (Evolves w) t (Writer.perform w l t)
unfolding Writer.perform mark_job_failed_sync save_job_results update_job_retry_sync
    transition_to_reporting save_report_result update_pipeline_stage_sync update_heartbeat_sync
    update_live_status_sync update_pod_id clear_pod_id update_sim_data_available
    update_enrichment_sync update_markets_config_sync transition_to_running mark_job_failed
    update_pipeline_stage async_update_pod_id update_job_metadata update_heartbeat update_enrichment
    update_job_retry
perform-Evolves (Writer.fail_sync i e n) l t =
    swallow-Rows (Evolves (Writer.fail_sync i e n)) (Evolves-refl (Writer.fail_sync i e n)) _ _
      (λ j h. ground arith) l t
perform-Evolves (Writer.save_results i r c g k s) l t =
    swallow-Rows (Evolves (Writer.save_results i r c g k s))
      (Evolves-refl (Writer.save_results i r c g k s)) _ _ (λ j h. ground arith) l t
perform-Evolves (Writer.retry_sync i n) l t =
    swallow-Rows (Evolves (Writer.retry_sync i n)) (Evolves-refl (Writer.retry_sync i n)) _ _
      (λ j h. ground arith) l t
perform-Evolves (Writer.to_reporting i) l t =
    strict-Rows (Evolves (Writer.to_reporting i)) (Evolves-refl (Writer.to_reporting i)) _ _
      (λ j h. ground arith) l t
perform-Evolves (Writer.save_report i r s k n) l t =
    strict-Rows (Evolves (Writer.save_report i r s k n))
      (Evolves-refl (Writer.save_report i r s k n)) _ _ (λ j h. ground arith) l t
perform-Evolves (Writer.stage_sync i s) l t =
    swallow-Rows (Evolves (Writer.stage_sync i s)) (Evolves-refl (Writer.stage_sync i s)) _ _
      (λ j h. ground arith) l t
perform-Evolves (Writer.heartbeat_sync i n) l t =
    swallow-Rows (Evolves (Writer.heartbeat_sync i n)) (Evolves-refl (Writer.heartbeat_sync i n)) _
      _ (λ j h. ground arith) l t
perform-Evolves (Writer.live_sync i s) l t =
    swallow-Rows (Evolves (Writer.live_sync i s)) (Evolves-refl (Writer.live_sync i s)) _ _
      (λ j h. ground arith) l t
perform-Evolves (Writer.pod_sync i p g) l t =
    swallow-Rows (Evolves (Writer.pod_sync i p g)) (Evolves-refl (Writer.pod_sync i p g)) _ _
      (λ j h. ground arith) l t
perform-Evolves (Writer.clear_pod i) l t =
    swallow-Rows (Evolves (Writer.clear_pod i)) (Evolves-refl (Writer.clear_pod i)) _ _
      (λ j h. ground arith) l t
perform-Evolves (Writer.data_available i b) l t =
    swallow-Rows (Evolves (Writer.data_available i b)) (Evolves-refl (Writer.data_available i b)) _
      _ (λ j h. ground arith) l t
perform-Evolves (Writer.enrichment_sync i e c) l t =
    swallow-Rows (Evolves (Writer.enrichment_sync i e c))
      (Evolves-refl (Writer.enrichment_sync i e c)) _ _ (λ j h. ground arith) l t
perform-Evolves (Writer.markets_sync i m) l t =
    swallow-Rows (Evolves (Writer.markets_sync i m)) (Evolves-refl (Writer.markets_sync i m)) _ _
      (λ j h. ground arith) l t
perform-Evolves (Writer.to_running i) l t =
    swallow-Rows (Evolves (Writer.to_running i)) (Evolves-refl (Writer.to_running i)) _ _
      (λ j h. ground arith) l t
perform-Evolves (Writer.fail_async i e n) l t =
    swallow-Rows (Evolves (Writer.fail_async i e n)) (Evolves-refl (Writer.fail_async i e n)) _ _
      (λ j h. ground arith) l t
perform-Evolves (Writer.stage_async i s) l t =
    let same = Evolves-refl (Writer.stage_async i s) in
    swallow_if-Rows (Evolves (Writer.stage_async i s)) (leb 1 s) _ _ l t
      (λ yes_stage.
        swallow-Rows (Evolves (Writer.stage_async i s)) same _ _ (λ j h. ground arith) l t)
      (λ no_stage.
        swallow-Rows (Evolves (Writer.stage_async i s)) same _ _ (λ j h. ground arith) l t)
perform-Evolves (Writer.pod_async i p g) l t =
    swallow-Rows (Evolves (Writer.pod_async i p g)) (Evolves-refl (Writer.pod_async i p g)) _ _
      (λ j h. ground arith) l t
perform-Evolves (Writer.metadata_async i p a b) l t =
    swallow-Rows (Evolves (Writer.metadata_async i p a b))
      (Evolves-refl (Writer.metadata_async i p a b)) _ _ (λ j h. ground arith) l t
perform-Evolves (Writer.heartbeat_async i n) l t =
    swallow-Rows (Evolves (Writer.heartbeat_async i n)) (Evolves-refl (Writer.heartbeat_async i n))
      _ _ (λ j h. ground arith) l t
perform-Evolves (Writer.enrichment_async i e c) l t =
    swallow-Rows (Evolves (Writer.enrichment_async i e c))
      (Evolves-refl (Writer.enrichment_async i e c)) _ _ (λ j h. ground arith) l t
perform-Evolves (Writer.retry_async i n) l t =
    swallow-Rows (Evolves (Writer.retry_async i n)) (Evolves-refl (Writer.retry_async i n)) _ _
      (λ j h. ground arith) l t

-- A history of writes, any interleaving of the processes, keeps every row sound: the rows stay in
-- number, each keeps its key and its owner, and a row that was finished properly, or becomes
-- completed or failed on the way, carries its completion time, and its report or its error.
Rows-All :
    (R : Job → Job → Type 0) (P : Job → Type 0) (step : (j k : Job) → R j k → P j → P k)
    → (t u : Table) → Rows R t u
    → All P t
    → All P u
Rows-All R P step [] [] r h = tt
Rows-All R P step [] (k ∷ u) r h = absurd r
Rows-All R P step (j ∷ t) [] r h = absurd r
Rows-All R P step (j ∷ t) (k ∷ u) r h = (step j k r.0 h.0, Rows-All R P step t u r.1 h.1)

pub perform_all-IsFinished :
    (ws : List (Writer.Write × Link)) (t : Table)
    → All IsFinished t
    → All IsFinished (Writer.perform_all ws t)
unfolding Writer.perform_all
perform_all-IsFinished [] t h = h
perform_all-IsFinished ((w, l) ∷ ws) t h =
    perform_all-IsFinished ws (Writer.perform w l t)
      (Rows-All (Evolves w) IsFinished (λ j k e. e.finished) t _ (perform-Evolves w l t) h)
