-- ===== src/Sweeper/Orphans.antt =====
-- saas/jobs/cleanup.py: which pods the sweep takes.
use sim_swarm.Prelude.{
  ℕ, ◌≤◌, ◌≡◌, refl, ap, ◌∙◌, Bool, true, false, List, [], ◌∷◌, Option, none, some, ◌&&◌, not, All,
  Bool-cases, Option-cases, inl, inr, arith, All-map, if◌then◌else◌, IsIn, ◌≢◌, ◌⊎◌, if-split,
  subst, sym,
}
use sim_swarm.Prelude.Text.{Text, text_eq_iff}
use sim_swarm.Prelude.Dict.{text_Eq, member}
use sim_swarm.Jobs.Row.{Job, JobStatus}
use sim_swarm.Jobs.Store.{Table, Link, unset, broken, up, ok, raised, find_job}
use sim_swarm.Jobs.Sync.{get_job_status}
use sim_swarm.Sweeper.Cleanup.{
  Pod, is_ours, is_live, active_pod_ids, get_active_job_pod_ids, pod_age_seconds, protects,
  old_enough, condemns, sweep_pods, cleanup_orphaned_pods, extract_job_tag,
}

-- A live row's pod is in use.
abbrev pub InUse : Text → Job → Type 0
InUse p j = (j.pod_id ≡ some p) × (is_live j.status ≡ true)

-- Active ids are the ids of live rows.
unlisted-unused :
    (p : Text) (t : Table) → member p (active_pod_ids t) ≡ false → All (λ j. ¬ InUse p j) t
unfolding active_pod_ids member
unlisted-unused p [] h = tt
unlisted-unused p (j ∷ t) h = ground (arith, unlisted-unused p t, text_eq_iff p p)

unused-unlisted :
    (p : Text) (t : Table) → All (λ j. ¬ InUse p j) t → member p (active_pod_ids t) ≡ false
unfolding active_pod_ids member
unused-unlisted p [] h = refl
unused-unlisted p (j ∷ t) h = elim (Option-cases j.pod_id) [
  | inl e ↦ ground (arith, unused-unlisted p t h.1, h, e)
  | inr (q, e) ↦ ground (arith, unused-unlisted p t h.1, text_eq_iff p q, h, e)
]

-- An open connection gives a status, or none.
status_read : (n : ℕ) (t : Table) → (s : Option JobStatus) × (get_job_status n up t ≡ ok s)
unfolding get_job_status
status_read n t = elim (Option-cases (find_job n t)) [
  | inl e ↦ (none, rw (e, get_job_status) refl)
  | inr (j, e) ↦ (some j.status, rw (e, get_job_status) refl)
]

caught : (k : Text) (s : List Text) → member k (k ∷ s) ≡ true
unfolding member
caught k s = ground (arith, text_eq_iff k k)

later : (j k : Text) (s : List Text) → member k s ≡ true → member k (j ∷ s) ≡ true
unfolding member
later j k s h = ground (arith, h)

module _ (age_of_change : Text → Option ℕ) where
  -- An orphan: a pod of ours that no live row uses, at least ten minutes old, and at least thirty if
  -- its name tells a live job.
  pub record IsOrphan (t : Table) (pod : Pod) : Type 0 where
    pub ours : is_ours pod.name ≡ true
    pub unused : All (λ j. ¬ InUse pod.id j) t
    pub old : 600 ≤ pod_age_seconds age_of_change pod
    pub untagged :
        (job_id : ℕ) (s : JobStatus)
        → extract_job_tag pod ≡ some job_id
        → get_job_status job_id up t ≡ ok (some s)
        → is_live s ≡ true
        → 1800 ≤ pod_age_seconds age_of_change pod

  condemned-IsOrphan :
      (t : Table) (pod : Pod)
      → condemns age_of_change up t (active_pod_ids t) pod ≡ ok true
      → IsOrphan t pod
  unfolding condemns
  condemned-IsOrphan t pod h =
      let miss : member pod.id (active_pod_ids t) ≡ false = ground (arith, h) in
      record {
        ours = ground (arith, h);
        unused = unlisted-unused pod.id t miss;
        old = elim (Option-cases (extract_job_tag pod)) [
          | inl e ↦ ground (arith, h, e, miss)
          | inr (n, e) ↦ let (s, r) = status_read n t in ground (arith, h, e, r, miss)
        ];
        untagged = λ n s e r v. ground (arith, h, e, r, v, miss);
      }

  orphan-condemned :
      (t : Table) (pod : Pod)
      → IsOrphan t pod
      → condemns age_of_change up t (active_pod_ids t) pod ≡ ok true
  unfolding condemns
  orphan-condemned t pod h =
      let miss = unused-unlisted pod.id t h.unused in
      elim (Option-cases (extract_job_tag pod)) [
        | inl e ↦ ground (arith, h.ours, h.old, e, miss)
        | inr (n, e) ↦
            let (s, r) = status_read n t in
            elim (Option-cases s) [
              | inl q ↦ ground (arith, h.ours, h.old, e, r, q, miss)
              | inr (v, q) ↦
                  ground
                    (arith, h.ours, h.old, h.untagged n v e (r ∙ ap (λ o. ok o) q), e, r, q, miss)
            ]
      ]

  -- On an open connection the tests come to an answer.
  condemned_total :
      (t : Table) (pod : Pod)
      → (b : Bool) × (condemns age_of_change up t (active_pod_ids t) pod ≡ ok b)
  unfolding condemns
  condemned_total t pod = elim (Bool-cases (is_ours pod.name)) [
    | inr n ↦ (false, ground (arith, n))
    | inl y ↦ elim (Bool-cases (member pod.id (active_pod_ids t))) [
      | inl m ↦ (false, ground (arith, y, m))
      | inr m ↦ elim (Option-cases (extract_job_tag pod)) [
        | inl e ↦ (old_enough age_of_change pod, ground (arith, y, m, e))
        | inr (n, e) ↦
            let (s, r) = status_read n t in
            (
              not (protects age_of_change s pod) && old_enough age_of_change pod,
              ground (arith, y, m, e, r),
            )
      ]
    ]
  ]

  module _ (terminates : Text → Bool) where
    -- The id of an orphan among the listed pods whose termination went through.
    pub record Taken (pods : List Pod) (t : Table) (id : Text) : Type 0 where
      pub pod : Pod
      pub listed : IsIn pod pods
      pub named : pod.id ≡ id
      pub orphan : IsOrphan t pod
      pub gone : terminates id ≡ true

    sweep : Table → List Pod → List Text × Bool
    sweep t pods = sweep_pods age_of_change terminates up t (active_pod_ids t) pods

    sweep-cons :
        (t : Table) (pod : Pod) (pods : List Pod) (b : Bool)
        → condemns age_of_change up t (active_pod_ids t) pod ≡ ok b
        → sweep t (pod ∷ pods) ≡ (
          (if b && terminates pod.id then pod.id ∷ (sweep t pods).0 else (sweep t pods).0),
          (sweep t pods).1,
        )
    unfolding sweep sweep_pods
    sweep-cons t pod pods b c = rw (c, sweep_pods) refl

    Taken-cons :
        (pod : Pod) (pods : List Pod) (t : Table) (id : Text)
        → Taken pods t id
        → Taken (pod ∷ pods) t id
    Taken-cons pod pods t id k = record {
      pod = k.pod;
      listed = inr k.listed;
      named = k.named;
      orphan = k.orphan;
      gone = k.gone;
    }

    sweep-Taken : (t : Table) (pods : List Pod) → All (Taken pods t) (sweep t pods).0
    unfolding sweep sweep_pods
    sweep-Taken t [] = tt
    sweep-Taken t (pod ∷ pods) =
        let (b, c) = condemned_total t pod in
        let rest =
          All-map (Taken pods t) (Taken (pod ∷ pods) t) (Taken-cons pod pods t) (sweep t pods).0
            (sweep-Taken t pods) in
        rw (sweep-cons t pod pods b c) (elim (Bool-cases (b && terminates pod.id)) [
          | inl y ↦
              let (condemned, gone) : (b ≡ true) × (terminates pod.id ≡ true) =
                (ground (arith, y), ground (arith, y)) in
              rw y (
                record {
                  pod = pod;
                  listed = inl refl;
                  named = refl;
                  orphan = condemned-IsOrphan t pod (c ∙ ap (λ i. ok i) condemned);
                  gone = gone;
                },
                rest,
              )
          | inr n ↦ rw n rest
        ])

    sweep_ends : (t : Table) (pods : List Pod) → (sweep t pods).1 ≡ true
    unfolding sweep sweep_pods
    sweep_ends t [] = refl
    sweep_ends t (pod ∷ pods) =
        let (b, c) = condemned_total t pod in rw (sweep-cons t pod pods b c) (sweep_ends t pods)

    -- The id of an orphan is among the ids, if its termination goes through.
    abbrev pub Catches : Table → List Text → Pod → Type 0
    Catches t ids p = IsOrphan t p → terminates p.id ≡ true → member p.id ids ≡ true

    sweep-Catches : (t : Table) (pods : List Pod) → All (Catches t (sweep t pods).0) pods
    sweep-Catches t [] = tt
    sweep-Catches t (pod ∷ pods) =
        let (b, c) = condemned_total t pod in
        let ids = (sweep t pods).0 in
        subst (λ r. All (Catches t r.0) (pod ∷ pods)) (sym (sweep-cons t pod pods b c))
          (if-split (λ r. All (Catches t r) (pod ∷ pods)) _ _ _
            (λ y. (
              λ o g. caught pod.id ids,
              All-map (Catches t ids) (Catches t (pod.id ∷ ids))
                  (λ p k o g. later pod.id p.id ids (k o g)) pods (sweep-Catches t pods),
            ))
            (λ n. (λ o g. ground (arith, n, g, c, orphan-condemned t pod o), sweep-Catches t pods)))

    -- The pods that the sweep reports as terminated are orphans among the pods the provider lists; on an
    -- open connection it takes every listed orphan whose termination goes through; with the database out of reach or without a key it terminates nothing.
    pub cleanup_takes_orphans :
        (has_key : Bool) (pods : List Pod) (link : Link) (t : Table)
        → let (ids, result) = cleanup_orphaned_pods age_of_change terminates has_key pods link t in
          All (Taken pods t) ids
          × (has_key ≡ true → link ≡ up → All (Catches t ids) pods × (result ≢ raised))
          × (has_key ≡ false ⊎ link ≢ up → ids ≡ [])
    unfolding cleanup_orphaned_pods get_active_job_pod_ids sweep
    cleanup_takes_orphans false pods link t = (tt, λ k. ground (arith, k), λ k. refl)
    cleanup_takes_orphans true [] link t = (tt, λ k l. (tt, λ e. ground (arith, e)), λ k. refl)
    cleanup_takes_orphans true (pod ∷ pods) unset t = (tt, λ k l. ground (arith, l), λ k. refl)
    cleanup_takes_orphans true (pod ∷ pods) broken t = (tt, λ k l. ground (arith, l), λ k. refl)
    cleanup_takes_orphans true (pod ∷ pods) up t = (
      sweep-Taken t (pod ∷ pods),
      λ k l. (sweep-Catches t (pod ∷ pods), λ e. ground (arith, e, sweep_ends t (pod ∷ pods))),
      λ k. ground (arith, k),
    )
