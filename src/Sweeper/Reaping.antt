-- ===== src/Sweeper/Reaping.antt =====
-- saas/jobs/stale_detector.py: which rows the sweep reaps, and what it does to the table.
use sim_swarm.Prelude.{
  ℕ, ◌-◌, ◌≡◌, ◌⊎◌, refl, sym, ap, ◌∙◌, Bool, true, false, List, [], ◌∷◌, ◌++◌, Option, none, some,
  not, select, map, arith, Bool-cases, Option-cases, inl, inr, is_some, append_assoc, append-nil,
  if◌then◌else◌, if-split, leb, ◌||◌, get_or, ◌==◌, ◌&&◌, length,
}
use sim_swarm.Prelude.Text.{Text, is_empty, codes}
use sim_swarm.Prelude.Dict.{nat_eq, member, member-append}
use sim_swarm.Jobs.Row.{Job, completed, refunded, failed, status_in}
use sim_swarm.Jobs.Store.{Table, up, update_where, ok, raised}
use sim_swarm.Jobs.Sync.{mark_job_failed_sync}
use sim_swarm.Jobs.Lifecycle.{Rows}
use sim_swarm.Sweeper.Cleanup.{is_live}
use sim_swarm.Sweeper.Stale.{
  Described, not_found, described, World, phase_budget_s, workflow_is_terminal, stale_reason,
  reconcile_stale_job, reconcile_all, detect_stale_jobs, load_live_jobs, reason_for, other_error,
  crashed,
}

-- A completed or a refunded row, which no failure write changes.
abbrev pub is_closed : Job → Bool
is_closed j = status_in j.status (completed ∷ refunded ∷ [])

-- What failing the rows of some ids does to one row.
pub record Reaps (ids : List ℕ) (j k : Job) : Type 0 where
  pub same_id : k.id ≡ j.id
  pub same_owner : k.user_id ≡ j.user_id
  pub failing : member j.id ids ≡ true → is_closed j ≡ false → k.status ≡ failed
  pub spared : member j.id ids ≡ false → k ≡ j
  pub closed : is_closed j ≡ true → k ≡ j

failed-not_closed : (j : Job) → j.status ≡ failed → is_closed j ≡ false
failed-not_closed j h = rw h refl

module _ (ids more : List ℕ) (i j k : Job) (p : Reaps ids i j) (q : Reaps more j k) where
  -- A row that fails first is still failed.
  failed_before : member i.id ids ≡ true → is_closed i ≡ false → k.status ≡ failed
  failed_before h c =
      let f = p.failing h c in
      elim (Bool-cases (member j.id more)) [
        | inl m ↦ q.failing m (failed-not_closed j f)
        | inr m ↦ ap (λ r. r.status) (q.spared m) ∙ f
      ]

  -- A row that is left alone first fails if it is named later.
  failed_after :
      member i.id ids ≡ false → member i.id more ≡ true → is_closed i ≡ false → k.status ≡ failed
  failed_after n m c = let e = p.spared n in q.failing (rw e m) (rw e c)

  Reaps-trans : Reaps (ids ++ more) i k
  Reaps-trans =
      let m = member-append i.id ids more in
      record {
        same_id = q.same_id ∙ p.same_id;
        same_owner = q.same_owner ∙ p.same_owner;
        failing = λ h c. elim (Bool-cases (member i.id ids)) [
          | inl y ↦ failed_before y c
          | inr n ↦ failed_after n (ground (arith, m, h, n)) c
        ];
        spared = λ h.
            let (n, o) : (member i.id ids ≡ false) × (member i.id more ≡ false) =
              (ground (arith, m, h), ground (arith, m, h)) in
            let e = p.spared n in q.spared (rw e o) ∙ e;
        closed = λ c. let e = p.closed c in q.closed (rw e c) ∙ e;
      }

Rows-Reaps-trans :
    (ids more : List ℕ) (t u v : Table)
    → Rows (Reaps ids) t u
    → Rows (Reaps more) u v
    → Rows (Reaps (ids ++ more)) t v
Rows-Reaps-trans ids more [] [] [] p q = tt
Rows-Reaps-trans ids more [] (j ∷ u) v p q = absurd p
Rows-Reaps-trans ids more (i ∷ t) [] v p q = absurd p
Rows-Reaps-trans ids more [] [] (k ∷ v) p q = absurd q
Rows-Reaps-trans ids more (i ∷ t) (j ∷ u) [] p q = absurd q
Rows-Reaps-trans ids more (i ∷ t) (j ∷ u) (k ∷ v) p q =
    (Reaps-trans ids more i j k p.0 q.0, Rows-Reaps-trans ids more t u v p.1 q.1)

mark-Reaps :
    (job_id : ℕ) (reason : Text) (now : ℕ) (t : Table)
    → Rows (Reaps (job_id ∷ [])) t (mark_job_failed_sync job_id reason now up t)
unfolding mark_job_failed_sync update_where member
mark-Reaps job_id reason now [] = tt
mark-Reaps job_id reason now (j ∷ t) = (
  if-split (Reaps (job_id ∷ []) j) (j.id == job_id && not (is_closed j)) _ _
      (λ y. record {
        same_id = refl;
        same_owner = refl;
        failing = λ h c. refl;
        spared = λ h. ground (arith, h, y);
        closed = λ c. ground (arith, c, y);
      })
      (λ n. record {
        same_id = refl;
        same_owner = refl;
        failing = λ h c. ground (arith, h, c, n);
        spared = λ h. refl;
        closed = λ c. refl;
      }),
  mark-Reaps job_id reason now t,
)

none-Reaps : (t : Table) → Rows (Reaps []) t t
unfolding member
none-Reaps [] = tt
none-Reaps (j ∷ t) = (
  record {
    same_id = refl;
    same_owner = refl;
    failing = λ h c. ground (arith, h);
    spared = λ h. refl;
    closed = λ h. refl;
  },
  none-Reaps t,
)

-- Nothing is RUNNING under the workflow id: Temporal does not know it, or says it has ended.
abbrev pub is_gone : Described → Bool
is_gone not_found = true
is_gone other_error = false
is_gone crashed = false
is_gone (described is_running) = not is_running

gone-terminal : (d : Described) → is_gone d ≡ true → workflow_is_terminal d ≡ ok true
unfolding workflow_is_terminal
gone-terminal d h = ground (arith, h)

kept-not_terminal :
    (d : Described)
    → is_gone d ≡ false
    → (workflow_is_terminal d ≡ ok false) ⊎ (workflow_is_terminal d ≡ raised)
unfolding workflow_is_terminal
kept-not_terminal d h = ground (arith, h)

module _ (str : ℕ → Text) (describe : Text → Described) (now : ℕ) where
  -- No workflow was started for the row, or it is gone.
  abbrev pub is_abandoned : Option Text → Bool
  is_abandoned none = true
  is_abandoned (some workflow_id) = is_empty workflow_id || is_gone (describe workflow_id)

  -- A row whose age since its creation has reached its phase's budget, with no workflow at work.
  abbrev pub is_stale : Job → Bool
  is_stale j =
      leb (phase_budget_s j.status j.tier) (now - j.created_at) && is_abandoned j.workflow_id

  stale_reason-is_stale : (j : Job) → is_some (stale_reason str describe up now j) ≡ is_stale j
  unfolding stale_reason
  stale_reason-is_stale j = elim (Option-cases j.workflow_id) [
    | inl e ↦ ground (arith, e)
    | inr (w, e) ↦ ground (arith, e, gone-terminal (describe w), kept-not_terminal (describe w))
  ]

  -- The pods of some rows, those without one left out.
  abbrev pub pods_of : List Job → List Text
  pods_of [] = []
  pods_of (j ∷ jobs) =
      let rest = pods_of jobs in
      if is_empty (get_or j.pod_id []) then rest else get_or j.pod_id [] ∷ rest

  abbrev pub ids_of : List Job → List ℕ
  ids_of jobs = map (λ j. j.id) jobs

  kill :
      (killed : List Text) (p : Text) (pods : List Text)
      → (if is_empty p then killed else killed ++ p ∷ []) ++ pods
        ≡ killed ++ (if is_empty p then pods else p ∷ pods)
  kill killed [] pods = refl
  kill killed (c ∷ p) pods = append_assoc killed ((c ∷ p) ∷ []) pods

  -- What a run of the loop leaves, given the stale rows that it met.
  record Reconciles (stale : List Job) (v w : World) : Type 0 where
    rows : Rows (Reaps (ids_of stale)) v.table w.table
    noted : w.reconciled ≡ v.reconciled ++ ids_of stale
    killed_pods : w.killed ≡ v.killed ++ pods_of stale

  -- One stale row more at the head.
  Reconciles-cons :
      (j : Job) (stale : List Job) (reason : Text) (v w : World)
      → Reconciles stale (reconcile_stale_job str describe up now j reason v) w
      → Reconciles (j ∷ stale) v w
  unfolding reconcile_stale_job
  Reconciles-cons j stale reason v w h = record {
    rows =
        Rows-Reaps-trans (j.id ∷ []) (ids_of stale) v.table _ w.table
          (mark-Reaps j.id (codes "stale_detector: " ++ reason) now v.table) h.rows;
    noted = h.noted ∙ append_assoc v.reconciled (j.id ∷ []) (ids_of stale);
    killed_pods = h.killed_pods ∙ kill v.killed (get_or j.pod_id []) (pods_of stale);
  }

  reconcile_all-Reconciles :
      (jobs : List Job) (w : World)
      → Reconciles (select is_stale jobs) w (reconcile_all str describe up now jobs w)
  unfolding reconcile_all
  reconcile_all-Reconciles [] w = record {
    rows = none-Reaps w.table;
    noted = sym (append-nil w.reconciled);
    killed_pods = sym (append-nil w.killed);
  }
  reconcile_all-Reconciles (j ∷ jobs) w =
      let found = stale_reason-is_stale j in
      elim (Option-cases (stale_reason str describe up now j)) [
        | inl e ↦
            let fresh : is_stale j ≡ false = sym found ∙ rw e refl in
            rw (e, fresh) (reconcile_all-Reconciles jobs w)
        | inr (word, e) ↦
            let old : is_stale j ≡ true = sym found ∙ rw e refl in
            let reason = reason_for str describe up now j word in
            rw (e, old)
              (Reconciles-cons j (select is_stale jobs) reason w _ (
                reconcile_all-Reconciles jobs (reconcile_stale_job str describe up now j reason w)))
      ]

  -- On an open connection the sweep takes exactly the live rows that are stale, in their order: it
  -- notes their ids, asks for the end of their pods, fails every row of those ids that is not
  -- completed or refunded, and leaves all other rows whole.
  pub detect_fails_stale :
      (t : Table)
      → let live = select (λ j. is_live j.status) t in
        (w : World) × (detect_stale_jobs str describe up now t ≡ ok (length live, w))
        × (w.reconciled ≡ ids_of (select is_stale live))
        × (w.killed ≡ pods_of (select is_stale live))
        × Rows (Reaps (ids_of (select is_stale live))) t w.table
  unfolding detect_stale_jobs load_live_jobs
  detect_fails_stale t =
      let live = select (λ j. is_live j.status) t in
      let start : World = record { table = t; killed = []; reconciled = [] } in
      let h = reconcile_all-Reconciles live start in
      (reconcile_all str describe up now live start, refl, h.noted, h.killed_pods, h.rows)
