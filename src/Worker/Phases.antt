-- ===== src/Worker/Phases.antt =====
-- infra/docker/worker_api.py: the states of a worker.
use sim_swarm.Prelude.{
  ◌≡◌, refl, ap, true, false, List, [], ◌∷◌, ◌++◌, Option, none, is_some, length, arith,
}
use sim_swarm.Prelude.Text.{Text}
use sim_swarm.Prelude.Dict.{Dict}
use sim_swarm.Worker.State.{
  Storage, Status, idle, running, completed, failed, JobRequest, Result, Job, Run, Process, exited,
  timed_out, raised, Worker, start, submit_job, finish_pipeline, Event, submit, finish, happen,
  happen_all, StatusReply, job_status,
}

-- What goes with a state: one thread is at work exactly while the job is running; a result is there
-- exactly when it is completed, and an error exactly when it has failed.
abbrev pub Goes : Status → Option Result → Option Text → List JobRequest → Type 0
Goes idle result error active = (result ≡ none) × (error ≡ none) × (active ≡ [])
Goes running result error active = (result ≡ none) × (error ≡ none) × (length active ≡ 1)
Goes completed result error active = (is_some result ≡ true) × (error ≡ none) × (active ≡ [])
Goes failed result error active = (result ≡ none) × (is_some error ≡ true) × (active ≡ [])

abbrev pub IsSettled : Worker → Type 0
IsSettled w = Goes w.job.status w.job.result w.job.error w.active

accepted :
    (request : JobRequest) (active : List JobRequest)
    → active ≡ []
    → length (active ++ request ∷ []) ≡ 1
accepted request active e = ap (λ a. length (a ++ request ∷ [])) e

submit_parts :
    (request : JobRequest) (status : Status) (result : Option Result) (error : Option Text)
    (active : List JobRequest)
    → Goes status result error active
    → IsSettled
        (submit_job request (record {
          job = record { status = status; result = result; error = error };
          active = active;
        })).1
unfolding submit_job
submit_parts request idle result error active h = (refl, refl, accepted request active h.2)
submit_parts request running result error active h = h
submit_parts request completed result error active h = (refl, refl, accepted request active h.2)
submit_parts request failed result error active h = (refl, refl, accepted request active h.2)

-- The end of the pipeline of the one thread.
finish_parts :
    (put : Storage) (request : JobRequest) (process : Process) (log : Text) (files : Dict Text Text)
    (job : Job) (rest : List JobRequest)
    → job.result ≡ none
    → job.error ≡ none
    → rest ≡ []
    → IsSettled (record {
      job =
          finish_pipeline put request (record { process = process; log = log; files = files }) job;
      active = rest;
    })
unfolding finish_pipeline
finish_parts put request (exited true) log files job rest r e a = (refl, e, a)
finish_parts put request (exited false) log files job rest r e a = (r, refl, a)
finish_parts put request timed_out log files job rest r e a = (r, refl, a)
finish_parts put request (raised message) log files job rest r e a = (r, refl, a)

no_rest : (request : JobRequest) (rest : List JobRequest) → length (request ∷ rest) ≡ 1 → rest ≡ []
no_rest request [] e = refl
no_rest request (x ∷ rest) e = ground (arith, e)

finish_active :
    (put : Storage) (run : Run) (status : Status) (result : Option Result) (error : Option Text)
    (active : List JobRequest)
    → Goes status result error active
    → IsSettled (
        happen put (finish run) (record {
          job = record { status = status; result = result; error = error };
          active = active;
        }))
unfolding happen
finish_active put run status result error [] h = h
finish_active put run idle result error (request ∷ rest) h = ground (arith, h.2)
finish_active put run running result error (request ∷ rest) h =
    finish_parts put request run.process run.log run.files _ rest h.0 h.1 (no_rest request rest h.2)
finish_active put run completed result error (request ∷ rest) h = ground (arith, h.2)
finish_active put run failed result error (request ∷ rest) h = ground (arith, h.2)

happen-IsSettled :
    (put : Storage) (e : Event) (w : Worker) → IsSettled w → IsSettled (happen put e w)
unfolding happen
happen-IsSettled put (submit request) w h =
    submit_parts request w.job.status w.job.result w.job.error w.active h
happen-IsSettled put (finish run) w h =
    finish_active put run w.job.status w.job.result w.job.error w.active h

happen_all-IsSettled :
    (put : Storage) (events : List Event) (w : Worker)
    → IsSettled w
    → IsSettled (happen_all put events w)
unfolding happen_all
happen_all-IsSettled put [] w h = h
happen_all-IsSettled put (e ∷ events) w h =
    happen_all-IsSettled put events (happen put e w) (happen-IsSettled put e w h)

-- What GET /status tells of a worker.
abbrev pub IsPlain : StatusReply → List JobRequest → Type 0
IsPlain reply active = Goes reply.status reply.result reply.error active

status_parts :
    (status : Status) (result : Option Result) (error : Option Text) (active : List JobRequest)
    → Goes status result error active
    → IsPlain
        (job_status (record {
          job = record { status = status; result = result; error = error };
          active = active;
        }))
        active
unfolding job_status
status_parts idle result error active h = (refl, refl, h.2)
status_parts running result error active h = (refl, refl, h.2)
status_parts completed result error active h = (h.0, refl, h.2)
status_parts failed result error active h = (refl, h.1, h.2)

-- From the start, whatever requests come and however the pipelines end, at most one pipeline is at work,
-- exactly one while GET /status says running; a result is told exactly when it says completed and an
-- error exactly when it says failed.
pub status-IsPlain :
    (put : Storage) (events : List Event)
    → let w = happen_all put events start in IsPlain (job_status w) w.active
status-IsPlain put events =
    let w = happen_all put events start in
    status_parts w.job.status w.job.result w.job.error w.active
      (happen_all-IsSettled put events start (refl, refl, refl))
