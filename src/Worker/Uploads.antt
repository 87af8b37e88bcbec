-- ===== src/Worker/Uploads.antt =====
-- infra/docker/worker_api.py: when the upload of the simulation's data counts as done.
use sim_swarm.Prelude.{
  ◌*◌, ◌≤◌, ◌≡◌, refl, Bool, [], ◌∷◌, ◌&&◌, ◌||◌, not, ltb, ◌==◌, is_some, length, select, any,
  arith, Bool-cases, inl, inr,
}
use sim_swarm.Prelude.Text.{Text}
use sim_swarm.Prelude.Dict.{Dict, text_Eq, lookup}
use sim_swarm.Worker.State.{
  Storage, attempts_per_file, is_stored, attempt_from, upload_files, produced, upload_sim_data,
}

module _ (put : Storage) (files : Dict Text Text) where
  -- One of the three attempts would be stored.
  abbrev pub is_reachable : Text × Text → Bool
  is_reachable u = is_stored (put u.0 1) || (is_stored (put u.0 2) || is_stored (put u.0 3))

  abbrev pub exists : Text × Text → Bool
  exists u = is_some (lookup u.0 files)

  attempt_three :
      (u : Text × Text)
      → ((attempt_from put u.0 3 1).0 ≡ is_reachable u)
        × ((attempt_from put u.0 3 1).1 ≤ attempts_per_file)
  unfolding attempt_from
  attempt_three u = elim (Bool-cases (is_stored (put u.0 1))) [
    | inl y ↦ rw (y, attempt_from) (refl, omega arith)
    | inr n ↦
        rw (n, attempt_from)
          (elim (Bool-cases (is_stored (put u.0 2))) [
            | inl y ↦ rw (y, attempt_from) (refl, omega arith)
            | inr k ↦
                rw (k, attempt_from)
                  (elim (Bool-cases (is_stored (put u.0 3))) [
                    | inl y ↦ rw (y, attempt_from) (refl, omega arith)
                    | inr m ↦ rw (m, attempt_from) (refl, omega arith)
                  ])
          ])
  ]

  -- The successes are the produced files that are reachable, and each takes three PUTs at most.
  upload_files-counts :
      (urls : Dict Text Text)
      → ((upload_files put files urls).0 ≡ length (select (λ u. exists u && is_reachable u) urls))
        × ((upload_files put files urls).1 ≤ attempts_per_file * produced put files urls)
  unfolding upload_files
  upload_files-counts [] = (refl, omega arith)
  upload_files-counts (u ∷ urls) =
      let (counted, bounded) = upload_files-counts urls in
      let (reached, few) = attempt_three u in
      elim (Bool-cases (exists u)) [
        | inr n ↦ rw (n, upload_files) (counted, bounded)
        | inl y ↦ rw (y, upload_files, reached) (ground (arith, counted, bounded, few))
      ]

  reached_le :
      (urls : Dict Text Text)
      → length (select (λ u. exists u && is_reachable u) urls) ≤ length (select exists urls)
  reached_le [] = omega arith
  reached_le (u ∷ urls) = ground (arith, reached_le urls)

  -- A file that was produced and that no attempt stores.
  abbrev pub is_lost : Text × Text → Bool
  is_lost u = exists u && not (is_reachable u)

  all_reached :
      (urls : Dict Text Text)
      → (length (select (λ u. exists u && is_reachable u) urls) == length (select exists urls))
        ≡ not (any is_lost urls)
  all_reached [] = refl
  all_reached (u ∷ urls) = elim (Bool-cases (exists u)) [
    | inr n ↦ rw n (all_reached urls)
    | inl y ↦ elim (Bool-cases (is_reachable u)) [
      | inl r ↦ ground (arith, y, r, all_reached urls)
      | inr r ↦ ground (arith, y, r, reached_le urls)
    ]
  ]

  some_produced : (urls : Dict Text Text) → ltb 0 (length (select exists urls)) ≡ any exists urls
  some_produced [] = refl
  some_produced (u ∷ urls) = ground (arith, some_produced urls)

-- The upload counts as done exactly if the pipeline produced some requested file, and for each produced
-- one an attempt among the first three is answered with 200 or 204; and no more than three PUTs are made
-- for each produced file.
pub upload_sim_data-done :
    (put : Storage) (files urls : Dict Text Text)
    → (upload_sim_data put files urls
        ≡ (not (any (is_lost put files) urls) && any (exists put files) urls))
      × ((upload_files put files urls).1 ≤ 3 * length (select (exists put files) urls))
unfolding upload_sim_data
upload_sim_data-done put files urls =
    let (counted, few) = upload_files-counts put files urls in
    (rw counted (rw (all_reached put files urls, some_produced put files urls) refl), few)
