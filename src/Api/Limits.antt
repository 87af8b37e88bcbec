-- ===== src/Api/Limits.antt =====
-- saas/jobs/api.py and api_draft.py: the limit on the length of a seed.
use sim_swarm.Prelude.{
  ◌<◌, ◌≡◌, refl, true, false, [], ◌∷◌, ◌++◌, some, is_some, ltb, length, arith, Option-cases,
  Bool-cases, inl, inr,
}
use sim_swarm.Prelude.Text.{Text, text_eq, text_eq_iff, is_empty, strip}
use sim_swarm.Jobs.Row.{draft, ModelRouting}
use sim_swarm.Api.Service.{done, Launch, Server, Service, find_route, new_job}
use sim_swarm.Api.Create.{JobCreate, create_job, launch_of}
use sim_swarm.Api.Drafts.{
  DraftCreate, create_draft, launch_draft, get_user_draft, launchable, dispatch_draft,
}
use sim_swarm.Api.Rows.{IsKeyed, next_id_new}
use sim_swarm.Api.Frames.{is_refused}
use sim_swarm.Api.Isolation.{find_job-append}

-- The draft with the contents of a job.
abbrev pub draft_of : JobCreate → DraftCreate
draft_of body = record {
  seed_text = body.seed_text;
  goal = some body.goal;
  tier = some body.tier;
  enrich_web = body.enrich_web;
  forecast_days = some body.forecast_days;
}

create_job-refuses :
    (srv : Server) (user : Text) (body : JobCreate) (s : Service)
    → srv.max_seed_chars < length body.seed_text
    → is_refused (create_job srv user body s).0 ≡ true
unfolding create_job
create_job-refuses srv user body s long = elim (Bool-cases srv.demo_mode) [
  | inl y ↦ rw (y, create_job) refl
  | inr n ↦
      let over : ltb srv.max_seed_chars (length body.seed_text) ≡ true = ground (arith, long) in
      rw (n, over, create_job) refl
]

launch_draft-starts :
    (srv : Server) (user : Text) (body : JobCreate) (s : Service) (routing : ModelRouting)
    → IsKeyed s
    → srv.demo_mode ≡ false
    → is_empty (strip body.seed_text) ≡ false
    → is_empty (strip body.goal) ≡ false
    → is_empty body.tier ≡ false
    → find_route body.tier srv.routes ≡ some routing
    → ((l : Launch) → is_some (srv.start_workflow l) ≡ true)
    → let (reply, s2) =
        launch_draft srv user s.next_id (create_draft srv user (draft_of body) s).1 in
      (is_refused reply ≡ false)
      × (l : Launch) × (l.seed_text ≡ body.seed_text)
      × (s2.started ≡ s.started ++ l ∷ [])
unfolding launch_draft create_draft get_user_draft launchable dispatch_draft
launch_draft-starts srv user body s routing keyed shown seed goal tier route up =
    let job =
      new_job s.next_id user body.seed_text (some body.goal) (some body.tier) draft body.enrich_web
        (some body.forecast_days) srv.now in
    let t = s.table ++ job ∷ [] in
    let found =
      find_job-append s.next_id s.table job refl (next_id_new s.next_id s.table keyed.below) in
    let mine : text_eq user user ≡ true = (text_eq_iff user user).1 refl in
    let own : get_user_draft user s.next_id t ≡ done job = rw (found, mine, get_user_draft) refl in
    let whole : launchable job ≡ done (body.goal, body.tier, body.forecast_days) =
      rw (seed, goal, tier, launchable) refl in
    let l = launch_of job body.goal body.tier body.forecast_days routing in
    elim (Option-cases (srv.start_workflow l)) [
      | inl n ↦ ground (arith, n, up l)
      | inr (w, e) ↦
          rw (shown, launch_draft)
            (rw (own, whole, route) (rw (e, dispatch_draft) (refl, l, refl, refl)))
    ]

-- A seed over the limit, with which a job is refused, starts one workflow with that very seed all the
-- same when the same contents are saved as a draft and the draft is launched: outside of the demo, with
-- a goal, a tier that has a route and a seed that is not blank, and with Temporal at work.
pub draft_skips_limit :
    (srv : Server) (user : Text) (body : JobCreate) (s : Service) (routing : ModelRouting)
    → IsKeyed s
    → srv.demo_mode ≡ false
    → srv.max_seed_chars < length body.seed_text
    → is_empty (strip body.seed_text) ≡ false
    → is_empty (strip body.goal) ≡ false
    → is_empty body.tier ≡ false
    → find_route body.tier srv.routes ≡ some routing
    → ((l : Launch) → is_some (srv.start_workflow l) ≡ true)
    → (is_refused (create_job srv user body s).0 ≡ true)
      × (let (reply, s2) =
            launch_draft srv user s.next_id (create_draft srv user (draft_of body) s).1 in
          (is_refused reply ≡ false)
          × (l : Launch) × (l.seed_text ≡ body.seed_text)
          × (s2.started ≡ s.started ++ l ∷ []))
draft_skips_limit srv user body s routing keyed shown long seed goal tier route up = (
  create_job-refuses srv user body s long,
  launch_draft-starts srv user body s routing keyed shown seed goal tier route up,
)
