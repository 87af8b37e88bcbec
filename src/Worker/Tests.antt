-- ===== src/Worker/Tests.antt =====
-- infra/docker/worker_api.py at concrete inputs.
use sim_swarm.Prelude.{
  ◌*◌, ◌≤◌, ◌≡◌, refl, ◌&&◌, ◌==◌, true, not, any, List, [], ◌∷◌, some, length, select,
  if◌then◌else◌,
}
use sim_swarm.Prelude.Text.{Text, codes, text_eq}
use sim_swarm.Prelude.Dict.{Dict, text_Eq, lookup}
use sim_swarm.Worker.State.{
  Storage, JobRequest, exited, timed_out, start, submit, finish, Event, happen_all, upload_files,
  upload_sim_data, attempt_from, job_status,
}
use sim_swarm.Worker.Uploads.{is_lost, exists, upload_sim_data-done}
use sim_swarm.Worker.Phases.{IsPlain, status-IsPlain}

-- The storage answers the second attempt for each file.
abbrev put : Storage
put = λ name attempt. if attempt == 2 then some 200 else some 503

abbrev urls : Dict Text Text
urls = (codes "a.json", codes "/a") ∷ (codes "b.json", codes "/b") ∷ []

abbrev files : Dict Text Text
files = (codes "a.json", codes "[]") ∷ []

-- One of two requested files was produced, and two PUTs store it.
uploads : upload_files put files urls ≡ (1, 2)
unfolding upload_files attempt_from lookup text_eq
uploads = refl

upload_sim_data-done_example :
    (upload_sim_data put files urls
      ≡ (not (any (is_lost put files) urls) && any (exists put files) urls))
    × ((upload_files put files urls).1 ≤ 3 * length (select (exists put files) urls))
upload_sim_data-done_example = upload_sim_data-done put files urls

abbrev request : JobRequest
request = record {
  seed_text = codes "s";
  goal = codes "g";
  upload_urls = urls;
  timeout_seconds = 60;
}

abbrev events : List Event
events =
    submit request
    ∷ submit request
    ∷ finish (record { process = exited true; log = []; files = files })
    ∷ submit request
    ∷ finish (record { process = timed_out; log = []; files = files })
    ∷ submit request
    ∷ []

status-IsPlain_example : let w = happen_all put events start in IsPlain (job_status w) w.active
status-IsPlain_example = status-IsPlain put events
