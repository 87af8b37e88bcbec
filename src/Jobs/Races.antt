-- ===== src/Jobs/Races.antt =====
-- Orders in which the processes that finish a job may write: the report task, the failure paths, the
-- stage updates that a late activity still makes.
use sim_swarm.Prelude.{ℕ, false, List, [], ◌∷◌, Option, some, ◌≡◌, refl, arith, All, take}
use sim_swarm.Prelude.Text.{Text}
use sim_swarm.Jobs.Row.{Job, running, reporting, completed, failed}
use sim_swarm.Jobs.Store.{Table, Link, up, table_after, update_where}
use sim_swarm.Jobs.Sync.{mark_job_failed_sync, save_report_result}
use sim_swarm.Jobs.Progress.{update_pipeline_stage_sync}
use sim_swarm.Jobs.Lifecycle.{Rows, SameDelivery, Evolves, reopens, perform-Evolves}
use sim_swarm.Jobs.Writer

Rows-trans :
    (R : Job → Job → Type 0) (comp : (i j k : Job) → R i j → R j k → R i k)
    → (s t u : Table) → Rows R s t
    → Rows R t u
    → Rows R s u
Rows-trans R comp [] [] [] p q = tt
Rows-trans R comp (i ∷ s) (j ∷ t) (k ∷ u) p q =
    (comp i j k p.0 q.0, Rows-trans R comp s t u p.1 q.1)
Rows-trans R comp [] [] (k ∷ u) p q = q
Rows-trans R comp [] (j ∷ t) u p q = absurd p
Rows-trans R comp (i ∷ s) [] u p q = absurd p
Rows-trans R comp (i ∷ s) (j ∷ t) [] p q = absurd q

Rows-map :
    (R S : Job → Job → Type 0) (weaken : (j k : Job) → R j k → S j k)
    → (t u : Table) → Rows R t u
    → Rows S t u
Rows-map R S weaken [] [] r = tt
Rows-map R S weaken [] (k ∷ u) r = r
Rows-map R S weaken (j ∷ t) [] r = r
Rows-map R S weaken (j ∷ t) (k ∷ u) r = (weaken j k r.0, Rows-map R S weaken t u r.1)

Rows-refl : (R : Job → Job → Type 0) (same : (j : Job) → R j j) (t : Table) → Rows R t t
Rows-refl R same [] = tt
Rows-refl R same (j ∷ t) = (same j, Rows-refl R same t)

-- What a completed row delivers is still there.
abbrev pub Delivers : Job → Job → Type 0
Delivers j k = j.status ≡ completed → SameDelivery j k

Delivers-trans : (i j k : Job) → Delivers i j → Delivers j k → Delivers i k
Delivers-trans i j k p q c = ground (arith, p c, q (p c).0)

-- No history without a write that sets the state untested changes a completed row's state, report,
-- structured result, chat log, graph, key insight or completion time.
pub perform_all-Delivers :
    (ws : List (Writer.Write × Link)) (t : Table)
    → All (λ c. reopens c.0 ≡ false) ws
    → Rows Delivers t (Writer.perform_all ws t)
unfolding Writer.perform_all
perform_all-Delivers [] t h = Rows-refl Delivers (λ j c. (c, refl, refl, refl, refl, refl, refl)) t
perform_all-Delivers ((w, l) ∷ ws) t h =
    Rows-trans Delivers Delivers-trans t (Writer.perform w l t) _
      (Rows-map (Evolves w) Delivers (λ j k e. e.delivered h.0) t _ (perform-Evolves w l t))
      (perform_all-Delivers ws (Writer.perform w l t) h.1)

-- Both orders of the two writes that finish a job in the state REPORTING. If the report is saved
-- first, the later failure changes neither state nor error; if the failure comes first, the later
-- report changes neither state nor report. Either way the first one is what the row says.
abbrev pub FirstWins : ℕ → Text → Text → Job → Job → Job → Type 0
FirstWins i report error j saved_first failed_first =
    j.id ≡ i
    → j.status ≡ reporting
    → (saved_first.status ≡ completed)
      × (saved_first.result_report ≡ some report)
      × (saved_first.error_message ≡ j.error_message)
      × (failed_first.status ≡ failed)
      × (failed_first.result_report ≡ j.result_report)
      × (failed_first.error_message ≡ some (take 4096 error))

abbrev pub Rows₃ : (Job → Job → Job → Type 0) → Table → Table → Table → Type 0
Rows₃ R [] [] [] = Unit
Rows₃ R (i ∷ s) (j ∷ t) (k ∷ u) = R i j k × Rows₃ R s t u
Rows₃ R _ _ _ = ⊥

pub finish_race :
    (i : ℕ) (report structured error : Text) (insight : Option Text) (now later : ℕ) (t : Table)
    → let save = λ (n : ℕ) (u : Table).
      table_after u (save_report_result i report structured insight n up u) in
      let fail = λ (n : ℕ) (u : Table). mark_job_failed_sync i error n up u in
      Rows₃ (FirstWins i report error) t (fail later (save now t)) (save later (fail now t))
unfolding save_report_result mark_job_failed_sync update_where
finish_race i report structured error insight now later [] = tt
finish_race i report structured error insight now later (j ∷ t) =
    (ground arith, finish_race i report structured error insight now later t)

-- A stage update is refused by a completed row only: after a failure it makes the row RUNNING again,
-- with the completion time and the error of the failure still in it.
pub stage_revives_failed :
    (i stage : ℕ) (error : Text) (now : ℕ) (t : Table)
    → Rows
        (λ j k.
          j.id ≡ i
          → j.status ≡ running
          → (k.status ≡ running)
            × (k.completed_at ≡ some now)
            × (k.error_message ≡ some (take 4096 error)))
        t
        (update_pipeline_stage_sync i stage up (mark_job_failed_sync i error now up t))
unfolding update_pipeline_stage_sync mark_job_failed_sync update_where
stage_revives_failed i stage error now [] = tt
stage_revives_failed i stage error now (j ∷ t) =
    (ground arith, stage_revives_failed i stage error now t)
