-- ===== src/Sweeper/Reports.antt =====
-- saas/jobs/stale_detector.py: the budget of a REPORTING row counts from the row's creation.
use sim_swarm.Prelude.{
  ℕ, ◌≤◌, ◌-◌, ◌≡◌, refl, true, List, [], ◌∷◌, select, All, arith, Bool-cases, inl, inr, All-map,
  ==_iff, length,
}
use sim_swarm.Prelude.Text.{Text}
use sim_swarm.Prelude.Dict.{nat_eq, member}
use sim_swarm.Jobs.Row.{Job, failed, reporting}
use sim_swarm.Jobs.Store.{Table, up, ok}
use sim_swarm.Jobs.Lifecycle.{Rows}
use sim_swarm.Sweeper.Cleanup.{is_live}
use sim_swarm.Sweeper.Stale.{Described, World, phase_budget_s, detect_stale_jobs}
use sim_swarm.Sweeper.Reaping.{is_stale, is_abandoned, ids_of, detect_fails_stale, Reaps}

module _ (str : ℕ → Text) (describe : Text → Described) (now : ℕ) where
  -- A live and stale row is among those taken.
  taken : (t : Table) → List ℕ
  taken t =
      ids_of str describe now
        (select (is_stale str describe now) (select (λ j. is_live j.status) t))

  taken-cons :
      (i : ℕ) (j : Job) (t : Table) → member i (taken t) ≡ true → member i (taken (j ∷ t)) ≡ true
  unfolding taken member
  taken-cons i j t h = elim (Bool-cases (is_live j.status)) [
    | inr n ↦ rw n h
    | inl y ↦ elim (Bool-cases (is_stale str describe now j)) [
      | inr n ↦ rw (y, n) h
      | inl s ↦ rw (y, s) (ground (arith, h))
    ]
  ]

  taken-head :
      (j : Job) (t : Table)
      → is_live j.status ≡ true
      → is_stale str describe now j ≡ true
      → member j.id (taken (j ∷ t)) ≡ true
  unfolding taken member
  taken-head j t l s = rw (l, s) (ground (arith, ==_iff j.id j.id))

  each_taken :
      (t : Table)
      → All
          (λ j.
            is_live j.status ≡ true
            → is_stale str describe now j ≡ true
            → member j.id (taken t) ≡ true)
          t
  each_taken [] = tt
  each_taken (j ∷ t) =
      (taken-head j t, All-map _ _ (λ i h l s. taken-cons i.id j t (h l s)) t (each_taken t))

  -- A row in REPORTING, created 75 minutes ago or more and with no workflow at work, is failed.
  abbrev pub CutsReport : Job → Job → Type 0
  CutsReport j k =
      j.status ≡ reporting
      → 4500 ≤ now - j.created_at
      → is_abandoned str describe now j.workflow_id ≡ true
      → k.status ≡ failed

  Rows-CutsReport :
      (ids : List ℕ) (t u : Table)
      → All
          (λ j.
            is_live j.status ≡ true → is_stale str describe now j ≡ true → member j.id ids ≡ true)
          t
      → Rows (Reaps ids) t u
      → Rows CutsReport t u
  unfolding phase_budget_s
  Rows-CutsReport ids [] [] a r = tt
  Rows-CutsReport ids [] (k ∷ u) a r = absurd r
  Rows-CutsReport ids (j ∷ t) [] a r = absurd r
  Rows-CutsReport ids (j ∷ t) (k ∷ u) a r = (
    λ q age gone. r.0.failing (a.0 (rw q refl) (rw q (ground (arith, age, gone)))) (rw q refl),
    Rows-CutsReport ids t u a.1 r.1,
  )

  -- The sweep on an open connection fails every row that is REPORTING, was created 75 minutes ago or
  -- more and has no workflow at work, however recently it began to report.
  pub reports_are_cut :
      (t : Table)
      → (n : ℕ) × (w : World) × (detect_stale_jobs str describe up now t ≡ ok (n, w))
        × Rows CutsReport t w.table
  unfolding taken
  reports_are_cut t =
      let (w, e, noted, killed, rows) = detect_fails_stale str describe now t in
      (
        length (select (λ j. is_live j.status) t),
        w,
        e,
        Rows-CutsReport (taken t) t w.table (each_taken t) rows,
      )
