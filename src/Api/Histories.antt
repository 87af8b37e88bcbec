-- ===== src/Api/Histories.antt =====
-- saas/jobs/api.py: any sequence of requests of any users.
use sim_swarm.Prelude.{
  ℕ, ◌+◌, ◌<◌, ◌≡◌, ◌≢◌, refl, sym, ap, subst, ◌∙◌, Bool, true, false, List, [], ◌∷◌, ◌++◌, select,
  All, ltb, length, some, none, arith, Bool-cases, Option-cases, inl, inr,
}
use sim_swarm.Prelude.Text.{Text, text_eq, text_eq_iff}
use sim_swarm.Jobs.Row.{Job, pending}
use sim_swarm.Jobs.Store.{Table}
use sim_swarm.Api.Service.{Reply, done, refused, Server, Service, find_route, new_job}
use sim_swarm.Api.Create.{
  JobCreate, create_job, route_job, dispatch_job, duplicate_code, is_duplicate, launch_of,
  dup_job_window_seconds,
}
use sim_swarm.Api.Requests.{Request, serve, serve_all}
use sim_swarm.Api.Rows.{IsKeyed, others}
use sim_swarm.Api.Frames.{is_refused}
use sim_swarm.Api.Isolation.{serve-Frame}

-- The rows of a user.
abbrev pub rows_of : Text → Table → Table
rows_of user t = select (λ j. text_eq j.user_id user) t

rows_of-others :
    (user victim : Text) (t : Table)
    → victim ≢ user
    → rows_of victim (others user t) ≡ rows_of victim t
rows_of-others user victim [] ne = refl
rows_of-others user victim (j ∷ t) ne = elim (Bool-cases (text_eq j.user_id user)) [
  | inl mine ↦
      let n : text_eq j.user_id victim ≡ false =
        ground (arith, mine, ne, text_eq_iff j.user_id user, text_eq_iff j.user_id victim) in
      rw (mine, n) (rows_of-others user victim t ne)
  | inr o ↦ rw o (elim (Bool-cases (text_eq j.user_id victim)) [
    | inl v ↦ rw v (ap (λ r. j ∷ r) (rows_of-others user victim t ne))
    | inr v ↦ rw v (rows_of-others user victim t ne)
  ])
]

-- Nobody's request is the user's.
abbrev pub IsAbsent : Text → List (Server × Text × Request) → Type 0
IsAbsent user requests = All (λ r. user ≢ r.1) requests

-- Through any history of requests, whatever the settings, the clock and Temporal do in between, the ids
-- stay distinct and below the sequence, and a user who made none of the requests has the same rows
-- afterwards, in the same order.
pub serve_all-isolates :
    (requests : List (Server × Text × Request)) (s : Service) (user : Text)
    → IsKeyed s
    → IsAbsent user requests
    → IsKeyed (serve_all requests s)
      × (rows_of user (serve_all requests s).table ≡ rows_of user s.table)
unfolding serve_all
serve_all-isolates [] s user h a = (h, refl)
serve_all-isolates (r ∷ requests) s user h a =
    let s2 = (serve r.0 r.1 r.2 s).1 in
    let f = serve-Frame r.0 r.1 r.2 s h in
    let (keyed, same) = serve_all-isolates requests s2 user f.keyed a.1 in
    (
      keyed,
      same
          ∙ sym (rows_of-others r.1 user s2.table a.0)
          ∙ ap (rows_of user) f.rest
          ∙ rows_of-others r.1 user s.table a.0,
    )

selects_one : (j : Job) (t : List Job) → duplicate_code (j ∷ t) ≢ none
selects_one j [] e = cc
selects_one j (k ∷ t) e = cc

-- Some row passes the test.
selects_some :
    (p : Job → Bool) (before after : Table) (job : Job)
    → p job ≡ true
    → duplicate_code (select p (before ++ job ∷ after)) ≢ none
selects_some p [] after job h = rw h (selects_one job (select p after))
selects_some p (j ∷ before) after job h = elim (Bool-cases (p j)) [
  | inl y ↦ rw y (selects_one j (select p (before ++ job ∷ after)))
  | inr n ↦ rw n (selects_some p before after job h)
]

-- A creation that is not refused adds its row, which counts as a duplicate for a minute.
abbrev Adds : Text → JobCreate → ℕ → Table → Reply Job × Service → Type 0
Adds user body later t (refused code, s2) = Unit
Adds user body later t (done job, s2) =
    (s2.table ≡ t ++ job ∷ []) × (is_duplicate user body later job ≡ true)

create_job-Adds :
    (srv : Server) (user : Text) (body : JobCreate) (later : ℕ) (s : Service)
    → later < srv.now + dup_job_window_seconds
    → Adds user body later s.table (create_job srv user body s)
unfolding create_job route_job dispatch_job
create_job-Adds srv user body later s soon = elim (Bool-cases srv.demo_mode) [
  | inl y ↦ rw (y, create_job) tt
  | inr n ↦
      rw (n, create_job)
        (elim (Bool-cases (ltb srv.max_seed_chars (length body.seed_text))) [
          | inl y ↦ rw y tt
          | inr k ↦
              rw k
                (elim (Option-cases
                  (duplicate_code (select (is_duplicate user body srv.now) s.table))) [
                    | inr (code, c) ↦ rw c tt
                    | inl c ↦ rw c (elim (Option-cases (find_route body.tier srv.routes)) [
                      | inl r ↦ rw (r, route_job) tt
                      | inr (routing, r) ↦
                          let job =
                            new_job s.next_id user body.seed_text (some body.goal) (some body.tier)
                              pending body.enrich_web (some body.forecast_days) srv.now in
                          rw (r, route_job)
                            (elim (Option-cases (
                              srv.start_workflow
                                (launch_of job body.goal body.tier body.forecast_days routing))) [
                                  | inl w ↦ rw (w, dispatch_job) tt
                                  | inr (w, e) ↦
                                      rw (e, dispatch_job)
                                        (
                                          refl,
                                          ground (
                                            arith,
                                            soon,
                                            text_eq_iff user user,
                                            text_eq_iff body.seed_text body.seed_text,
                                            text_eq_iff body.goal body.goal,
                                            text_eq_iff body.tier body.tier,
                                          ),
                                        )
                                ])
                    ])
                  ])
        ])
]

duplicate_refused :
    (srv : Server) (user : Text) (body : JobCreate) (s : Service) (code : ℕ)
    → duplicate_code (select (is_duplicate user body srv.now) s.table) ≡ some code
    → (is_refused (create_job srv user body s).0 ≡ true) × ((create_job srv user body s).1 ≡ s)
unfolding create_job
duplicate_refused srv user body s code c = elim (Bool-cases srv.demo_mode) [
  | inl y ↦ rw (y, create_job) (refl, refl)
  | inr n ↦
      rw (n, create_job)
        (elim (Bool-cases (ltb srv.max_seed_chars (length body.seed_text))) [
          | inl y ↦ rw y (refl, refl)
          | inr k ↦ rw (k, c) (refl, refl)
        ])
]

-- A creation that is not refused stores the row that it returns. The same request of the same user is
-- refused for the next minute, whatever happened in between, as long as the table has the row as it was
-- stored: the request changes nothing and starts no workflow, whatever the settings and the routes are
-- then.
pub create_job-once :
    (srv srv2 : Server) (user : Text) (body : JobCreate) (s s2 s3 : Service) (job : Job)
    → (before after : Table) → create_job srv user body s ≡ (done job, s2)
    → s3.table ≡ before ++ job ∷ after
    → srv2.now < srv.now + dup_job_window_seconds
    → (s2.table ≡ s.table ++ job ∷ [])
      × (is_refused (create_job srv2 user body s3).0 ≡ true)
      × ((create_job srv2 user body s3).1 ≡ s3)
create_job-once srv srv2 user body s s2 s3 job before after e kept soon =
    let (stored, dup) =
      subst (Adds user body srv2.now s.table) e (create_job-Adds srv user body srv2.now s soon) in
    let many = selects_some (is_duplicate user body srv2.now) before after job dup in
    let again : (is_refused (create_job srv2 user body s3).0 ≡ true)
        × ((create_job srv2 user body s3).1 ≡ s3) =
      elim (Option-cases (duplicate_code (select (is_duplicate user body srv2.now) s3.table))) [
        | inl none_found ↦ absurd (
            many (
              subst (λ t. duplicate_code (select (is_duplicate user body srv2.now) t) ≡ none) kept
                none_found))
        | inr (code, c) ↦ duplicate_refused srv2 user body s3 code c
      ] in
    (stored, again.0, again.1)
