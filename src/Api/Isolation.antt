-- ===== src/Api/Isolation.antt =====
-- Whatever requests arrive: the rows of the other users, the ids, and what a refusal leaves.
use sim_swarm.Prelude.{
  ℕ, ◌≡◌, refl, sym, subst, ◌∙◌, true, false, [], ◌∷◌, ◌++◌, some, ltb, ◌==◌, get_or, length,
  select, All-map, arith, Bool-cases, Option-cases, inl, inr, some-injective, ==_iff,
}
use sim_swarm.Prelude.Text.{Text, text_eq, text_eq_iff}
use sim_swarm.Prelude.Dict.{nat_eq, member}
use sim_swarm.Jobs.Row.{Job, draft, failed, refunded, pending, status_in, ModelRouting}
use sim_swarm.Jobs.Store.{Table, find_job}
use sim_swarm.Api.Service.{Reply, done, refused, Server, Service, find_route, owned, new_job}
use sim_swarm.Api.Create.{
  JobCreate, create_job, retry_job, dispatch_job, route_job, link_retry, body_of, duplicate_code,
  is_duplicate, launch_of,
}
use sim_swarm.Api.Access.{get_job}
use sim_swarm.Api.Drafts.{
  DraftCreate, DraftUpdate, create_draft, update_draft, launch_draft, get_user_draft, launchable,
  dispatch_draft, revised,
}
use sim_swarm.Api.Requests.{
  Request, create, retry, get, delete, share, revoke, save_draft, edit_draft, launch, serve, Answer,
  row, link, empty, answer,
}
use sim_swarm.Api.Rows.{IsKeyed, IsOwn, next_id_new, ids}
use sim_swarm.Api.Frames.{
  Frame, Reply-cases, Frame-same, Frame-update, Frame-append, get_user_draft-IsOwn,
  delete_job-Frame, create_share_link-Frame, revoke_share_link-Frame,
}

-- A row that a reply gives is the user's, and is in the table.
abbrev OwnRow : Text → Reply Job × Service → Type 0
OwnRow user (done job, s) = IsOwn user job.id s.table
OwnRow user (refused code, s) = Unit

pub find_job-append :
    (id : ℕ) (t : Table) (job : Job)
    → job.id ≡ id
    → member id (ids t) ≡ false
    → find_job id (t ++ job ∷ []) ≡ some job
unfolding find_job member
find_job-append id [] job e n = ground (arith, e)
find_job-append id (j ∷ t) job e n = ground (arith, n, find_job-append id t job e)

find_job-id : (id : ℕ) (t : Table) (job : Job) → find_job id t ≡ some job → job.id ≡ id
unfolding find_job
find_job-id id [] job e = cc
find_job-id id (j ∷ t) job e = elim (Bool-cases (j.id == id)) [
  | inl hit ↦
      let same : j ≡ job = some-injective (sym (rw (hit, find_job) refl) ∙ e) in
      rw⁻¹ same ((==_iff j.id id).0 hit)
  | inr miss ↦ find_job-id id t job (ground (arith, miss, e))
]

get_user_draft-id :
    (user : Text) (id : ℕ) (t : Table) (job : Job)
    → get_user_draft user id t ≡ done job
    → job.id ≡ id
unfolding get_user_draft
get_user_draft-id user id t job e = elim (Option-cases (find_job id t)) [
  | inl n ↦ ground (arith, e, n)
  | inr (k, f) ↦ ground (arith, e, f, find_job-id id t k f)
]

-- A creation leaves a frame and, unless it is refused, a row of the user.
record Created (user : Text) (s : Service) (x : Reply Job × Service) : Type 0 where
  frame : Frame user s x
  own : OwnRow user x

Created-same : (user : Text) (code : ℕ) (s : Service) → IsKeyed s → Created user s (refused code, s)
Created-same user code s h = record { frame = Frame-same user s (refused code) h; own = tt }

link_retry-Frame :
    (user : Text) (id : ℕ) (s : Service) (x : Reply Job × Service)
    → Created user s x
    → Frame user s (link_retry id x)
unfolding link_retry
link_retry-Frame user id s (refused code, s2) c = c.frame
link_retry-Frame user id s (done job, s2) c =
    let f : Frame user s2 (link_retry id (done job, s2)) =
      Frame-update user job.id (λ j. record j { retry_of = some id }) s2 _ _
        (record { same_id = λ j. refl; same_owner = λ j. refl }) refl refl c.own c.frame.keyed in
    record { keyed = f.keyed; rest = f.rest ∙ c.frame.rest; unchanged = λ r. cc }

module _ (srv : Server) where
  dispatch_job-Created :
      (user : Text) (body : JobCreate) (routing : ModelRouting) (s : Service)
      → IsKeyed s
      → Created user s (dispatch_job srv user body routing s)
  unfolding dispatch_job
  dispatch_job-Created user body routing s h =
      let job =
        new_job s.next_id user body.seed_text (some body.goal) (some body.tier) pending
          body.enrich_web (some body.forecast_days) srv.now in
      let mine : text_eq user user ≡ true = (text_eq_iff user user).1 refl in
      elim (Option-cases
        (srv.start_workflow (launch_of job body.goal body.tier body.forecast_days routing))) [
          | inl n ↦
              rw (n, dispatch_job)
                (record {
                  frame = record {
                    keyed = record {
                      distinct = h.distinct;
                      below = All-map _ _ (λ j b. omega (arith, b)) s.table h.below;
                    };
                    rest = refl;
                    unchanged = λ r. (refl, refl);
                  };
                  own = tt;
                })
          | inr (w, e) ↦
              let saved = record job { workflow_id = some w.0; workflow_run_id = some w.1 } in
              rw (e, dispatch_job)
                (record {
                  frame = Frame-append user saved s _ saved mine refl refl refl h;
                  own = record {
                    job = saved;
                    found =
                        find_job-append s.next_id s.table saved refl
                          (next_id_new s.next_id s.table h.below);
                    own = mine;
                  };
                })
        ]

  create_job-Created :
      (user : Text) (body : JobCreate) (s : Service)
      → IsKeyed s
      → Created user s (create_job srv user body s)
  unfolding create_job route_job
  create_job-Created user body s h = elim (Bool-cases srv.demo_mode) [
    | inl y ↦ rw (y, create_job) (Created-same user 403 s h)
    | inr n ↦
        rw (n, create_job)
          (elim (Bool-cases (ltb srv.max_seed_chars (length body.seed_text))) [
            | inl y ↦ rw y (Created-same user 400 s h)
            | inr k ↦
                rw k
                  (elim (Option-cases
                    (duplicate_code (select (is_duplicate user body srv.now) s.table))) [
                      | inr (code, c) ↦ rw c (Created-same user code s h)
                      | inl c ↦ rw c (elim (Option-cases (find_route body.tier srv.routes)) [
                        | inl r ↦ rw (r, route_job) (Created-same user 500 s h)
                        | inr (routing, r) ↦
                            rw (r, route_job) (dispatch_job-Created user body routing s h)
                      ])
                    ])
          ])
  ]

  retry_job-Frame :
      (user : Text) (id : ℕ) (s : Service) → IsKeyed s → Frame user s (retry_job srv user id s)
  unfolding retry_job
  retry_job-Frame user id s h = elim (Reply-cases (owned user id s.table)) [
    | inl (code, e) ↦ rw (e, retry_job) (Frame-same user s (refused code) h)
    | inr (job, e) ↦
        rw (e, retry_job)
          (elim (Bool-cases (status_in job.status (failed ∷ refunded ∷ []))) [
            | inr n ↦ rw n (Frame-same user s (refused 400) h)
            | inl y ↦ rw y (elim (Option-cases (body_of job)) [
              | inl n ↦ rw n (Frame-same user s (refused 500) h)
              | inr (body, b) ↦ rw b (
                  link_retry-Frame user job.id s (create_job srv user body s)
                    (create_job-Created user body s h))
            ])
          ])
  ]

  create_draft-Frame :
      (user : Text) (body : DraftCreate) (s : Service)
      → IsKeyed s
      → Frame user s (create_draft srv user body s)
  unfolding create_draft
  create_draft-Frame user body s h =
      Frame-append user
        (new_job s.next_id user body.seed_text body.goal body.tier draft body.enrich_web
          body.forecast_days srv.now)
        s _ _ ((text_eq_iff user user).1 refl) refl refl refl h

  update_draft-Frame :
      (user : Text) (id : ℕ) (body : DraftUpdate) (s : Service)
      → IsKeyed s
      → Frame user s (update_draft srv user id body s)
  unfolding update_draft
  update_draft-Frame user id body s h = elim (Reply-cases (get_user_draft user id s.table)) [
    | inl (code, e) ↦ rw (e, update_draft) (Frame-same user s (refused code) h)
    | inr (job, e) ↦
        rw (e, update_draft)
          (elim (Bool-cases (ltb srv.max_seed_chars (length (get_or body.seed_text [])))) [
            | inl y ↦ rw y (Frame-same user s (refused 400) h)
            | inr n ↦ rw n (
                Frame-update user id (revised body) s _ (revised body job)
                  (record { same_id = λ j. refl; same_owner = λ j. refl }) refl refl
                  (get_user_draft-IsOwn user id s.table job e) h)
          ])
  ]

  dispatch_draft-Frame :
      (user : Text) (job : Job) (goal tier : Text) (days : ℕ) (routing : ModelRouting) (s : Service)
      → IsOwn user job.id s.table
      → IsKeyed s
      → Frame user s (dispatch_draft srv job goal tier days routing s)
  unfolding dispatch_draft
  dispatch_draft-Frame user job goal tier days routing s o h =
      elim (Option-cases (srv.start_workflow (launch_of job goal tier days routing))) [
        | inl n ↦ rw (n, dispatch_draft) (Frame-same user s (refused 500) h)
        | inr (w, e) ↦
            rw (e, dispatch_draft)
              (Frame-update user job.id
                (λ j. record j {
                  workflow_id = some w.0;
                  workflow_run_id = some w.1;
                  status = pending;
                })
                s _ _ (record { same_id = λ j. refl; same_owner = λ j. refl }) refl refl o h)
      ]

  launch_draft-Frame :
      (user : Text) (id : ℕ) (s : Service) → IsKeyed s → Frame user s (launch_draft srv user id s)
  unfolding launch_draft
  launch_draft-Frame user id s h = elim (Bool-cases srv.demo_mode) [
    | inl y ↦ rw (y, launch_draft) (Frame-same user s (refused 403) h)
    | inr n ↦
        rw (n, launch_draft)
          (elim (Reply-cases (get_user_draft user id s.table)) [
            | inl (code, e) ↦ rw e (Frame-same user s (refused code) h)
            | inr (job, e) ↦ rw e (elim (Reply-cases (launchable job)) [
              | inl (code, l) ↦ rw l (Frame-same user s (refused code) h)
              | inr (parts, l) ↦ rw l (elim (Option-cases (find_route parts.1 srv.routes)) [
                | inl r ↦ rw r (Frame-same user s (refused 500) h)
                | inr (routing, r) ↦ rw r (
                    dispatch_draft-Frame user job parts.0 parts.1 parts.2 routing s
                      (subst (λ i. IsOwn user i s.table)
                        (sym (get_user_draft-id user id s.table job e))
                        (get_user_draft-IsOwn user id s.table job e))
                      h)
              ])
            ])
          ])
  ]

answer-Frame :
    {A : Type 0} (f : A → Answer) (user : Text) (s : Service) (x : Reply A × Service)
    → Frame user s x
    → Frame user s (answer f x)
answer-Frame f user s (done a, s2) h = record {
  keyed = h.keyed;
  rest = h.rest;
  unchanged = h.unchanged;
}
answer-Frame f user s (refused code, s2) h = record {
  keyed = h.keyed;
  rest = h.rest;
  unchanged = h.unchanged;
}

-- Where no two rows have one id and the sequence of ids is past them all, every request of a user
-- leaves it so and leaves the rows of all other users as they are, in their order; and a request that
-- is refused leaves the whole table as it is and starts no workflow.
pub serve-Frame :
    (srv : Server) (user : Text) (request : Request) (s : Service)
    → IsKeyed s
    → Frame user s (serve srv user request s)
unfolding serve get_job
serve-Frame srv user (create body) s h =
    answer-Frame row user s _ (create_job-Created srv user body s h).frame
serve-Frame srv user (retry id) s h = answer-Frame row user s _ (retry_job-Frame srv user id s h)
serve-Frame srv user (get id) s h =
    answer-Frame row user s _ (Frame-same user s (owned user id s.table) h)
serve-Frame srv user (delete id) s h =
    answer-Frame (λ u. empty) user s _ (delete_job-Frame user id s h)
serve-Frame srv user (share id token) s h =
    answer-Frame link user s _ (create_share_link-Frame user id token s h)
serve-Frame srv user (revoke id) s h =
    answer-Frame (λ u. empty) user s _ (revoke_share_link-Frame user id s h)
serve-Frame srv user (save_draft body) s h =
    answer-Frame row user s _ (create_draft-Frame srv user body s h)
serve-Frame srv user (edit_draft id body) s h =
    answer-Frame row user s _ (update_draft-Frame srv user id body s h)
serve-Frame srv user (launch id) s h =
    answer-Frame row user s _ (launch_draft-Frame srv user id s h)
