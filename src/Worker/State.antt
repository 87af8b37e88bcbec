-- ===== src/Worker/State.antt =====
-- infra/docker/worker_api.py: a job's request, its pipeline and the answers of the routes. The process that
-- runs the pipeline, with the log and the files that it leaves, and the answers of the object storage are
-- parameters.
use sim_swarm.Prelude.{
  ℕ, ◌+◌, suc, zero, Bool, true, false, List, [], ◌∷◌, ◌++◌, Option, none, some, ◌&&◌, ◌||◌, ltb,
  ◌==◌, if◌then◌else◌, get_or, is_some, take_last, length, select,
}
use sim_swarm.Prelude.Text.{Text, codes, is_empty}
use sim_swarm.Prelude.Dict.{Dict, text_Eq, lookup}
use sim_swarm.Engine.Market.Slug.{decimal}

pub data Status : Type 0 where
  idle running completed failed : Status

-- The body of POST /job, as far as the worker reads it itself.
pub record JobRequest : Type 0 where
  pub seed_text : Text
  pub goal : Text
  pub upload_urls : Dict Text Text
  pub timeout_seconds : ℕ

-- `_job["result"]`
pub record Result : Type 0 where
  pub chat_log : Text
  pub graph_data : Text
  pub structured : Text
  pub sim_data_uploaded : Bool

-- `_job`
pub record Job : Type 0 where
  pub status : Status
  pub result : Option Result
  pub error : Option Text

-- How the process ends: with the exit code 0 or another, past its time, or by an exception.
pub data Process : Type 0 where
  exited : Bool → Process
  timed_out : Process
  raised : Text → Process

-- What a run leaves: its end, its log and the files of the result directory.
pub record Run : Type 0 where
  pub process : Process
  pub log : Text
  pub files : Dict Text Text

-- The answer to a PUT of a file, by the number of the attempt; none where it raises.
abbrev pub Storage : Type 0
Storage = Text → ℕ → Option ℕ

abbrev pub attempts_per_file : ℕ
attempts_per_file = 3

-- `resp.status_code in (200, 204)`
abbrev pub is_stored : Option ℕ → Bool
is_stored none = false
is_stored (some code) = code == 200 || code == 204

module _ (put : Storage) where
  -- The attempts for one file, from a number on: whether one is stored, and how many were made.
  unfoldable pub attempt_from : Text → ℕ → ℕ → Bool × ℕ
  attempt_from filename zero attempt = (false, 0)
  attempt_from filename (suc left) attempt =
      let (uploaded, made) = attempt_from filename left (attempt + 1) in
      if is_stored (put filename attempt) then (true, 1) else (uploaded, suc made)

  -- The loop of `_upload_sim_data`: the successes, and the number of PUTs.
  unfoldable pub upload_files : Dict Text Text → Dict Text Text → ℕ × ℕ
  upload_files files [] = (0, 0)
  upload_files files ((filename, url) ∷ urls) =
      let (successes, made) = upload_files files urls in
      if is_some (lookup filename files)
      then (let (uploaded, here) = attempt_from filename attempts_per_file 1 in
          (if uploaded then suc successes else successes, here + made))
      else (successes, made)

  abbrev pub produced : Dict Text Text → Dict Text Text → ℕ
  produced files urls = length (select (λ u. is_some (lookup u.0 files)) urls)

  -- `_upload_sim_data`
  unfoldable pub upload_sim_data : Dict Text Text → Dict Text Text → Bool
  upload_sim_data files urls =
      (upload_files files urls).0 == produced files urls && ltb 0 (produced files urls)

  abbrev file_or : Text → Text → Dict Text Text → Text
  file_or name default files = get_or (lookup name files) default

  -- `_run_pipeline` after the process: what it writes to `_job`.
  unfoldable pub finish_pipeline : JobRequest → Run → Job → Job
  finish_pipeline request run job = elim run.process [
    | exited ok ↦
        if ok
        then record job {
          status = completed;
          result = some (record {
            chat_log = file_or (codes "chat_log.json") (codes "[]") run.files;
            graph_data = file_or (codes "graph_data.json") (codes "{}") run.files;
            structured = codes "{}";
            sim_data_uploaded =
                if is_empty request.upload_urls
                then false
                else upload_sim_data run.files request.upload_urls;
          });
        }
        else record job { status = failed; error = some (take_last 5000 run.log) }
    | timed_out ↦ record job {
      status = failed;
      error = some (codes "Job timed out after " ++ decimal request.timeout_seconds ++ codes "s");
    }
    | raised message ↦ record job { status = failed; error = some message }
  ]

-- The worker: `_job`, and the requests whose threads are at work.
pub record Worker : Type 0 where
  pub job : Job
  pub active : List JobRequest

abbrev pub start : Worker
start = record { job = record { status = idle; result = none; error = none }; active = [] }

abbrev pub is_running : Status → Bool
is_running running = true
is_running idle = false
is_running completed = false
is_running failed = false

-- `submit_job`: the status code, and the worker after it.
unfoldable pub submit_job : JobRequest → Worker → ℕ × Worker
submit_job request w = if is_running w.job.status then (409, w) else (
  200,
  record w {
    job = record { status = running; result = none; error = none };
    active = w.active ++ request ∷ [];
  },
)

-- What happens: a request, or the end of the pipeline of the first thread at work.
pub data Event : Type 0 where
  submit : JobRequest → Event
  finish : Run → Event

unfoldable pub happen : Storage → Event → Worker → Worker
happen put (submit request) w = (submit_job request w).1
happen put (finish run) w = elim w.active [
  | [] ↦ w
  | request ∷ active ↦ record { job = finish_pipeline put request run w.job; active = active }
]

unfoldable pub happen_all : Storage → List Event → Worker → Worker
happen_all put [] w = w
happen_all put (e ∷ events) w = happen_all put events (happen put e w)

-- The JSON of GET /status.
pub record StatusReply : Type 0 where
  pub status : Status
  pub result : Option Result
  pub error : Option Text

unfoldable pub job_status : Worker → StatusReply
job_status w = elim w.job.status [
  | idle ↦ record { status = idle; result = none; error = none }
  | running ↦ record { status = running; result = none; error = none }
  | completed ↦ record { status = completed; result = w.job.result; error = none }
  | failed ↦ record { status = failed; result = none; error = w.job.error }
]
