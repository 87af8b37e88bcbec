-- ===== src/Lib.antt =====
-- SimSwarm runs swarm simulations: a web service takes a job, a Temporal workflow rents a GPU pod, the
-- pod runs the engine `simswarm/`, and a report is written from its artifacts. This library models the
-- parts whose correctness rests on the order of writes, calls and state changes.
--
-- Parts and files:
-- - Prelude: numbers, lists, integers, Python texts (lists of code points) and dictionaries
--   (association lists in insertion order).
-- - Jobs: the table `simulation_jobs`. Row is saas/jobs/models.py; Store is SQL's UPDATE and SELECT on
--   a list of rows; Sync, Progress and Async are the helpers of saas/jobs/persistence_sync.py,
--   persistence_sync_progress.py with persistence_sync_idempotency.py, and persistence_async.py, named
--   as there without the leading underscore. Writer joins all writes into one type of calls, so that a
--   list of calls is any interleaving of the API, Celery and Temporal processes. A statement with its
--   commit is one step; the link to the database may be unset, broken or up.
-- - Api: the requests of a signed-in user. Service is what the handlers read and change; Create is
--   create_job of saas/jobs/api.py with saas/jobs/api_retry.py, Access is get_job and delete_job with
--   saas/jobs/api_share.py, Drafts is saas/jobs/api_draft.py, Listing is list_jobs. Requests joins them
--   into one type, so that a list of requests is a history. A handler runs as one step; Temporal's
--   answer to a start is a parameter. Rows, Frames, Isolation, Histories and Limits are about them.
-- - Workflow: saas/workflows/sim_workflow.py. Temporal is the interface to the activities: their
--   answers are a parameter, a function of all calls made before. Run is `SimulationWorkflow.run`; its
--   loops recur on the number of retries left, which the source's constants give (1, 1 and 2), so no
--   fuel is needed. Trace reads a record of calls; Rules are the rules of its control flow; Phases
--   and Outcome prove what each phase and the whole leave behind.
-- - Engine: the engine of the pod, simswarm/. Types is simswarm/types.py; Social is
--   simswarm/environments/social.py, one function for each handler, `execute_action`, `tick` and
--   `publish_events`; Social/Invariant, Votes and Announce are about it.
--   Number is the number type of the engine, with the operations of Python's float and four facts of
--   its comparison and difference, so that no rounding matters; Decimal is one instance. Belief is
--   `update_beliefs` of simswarm/belief.py, and Belief/Range is about it; Belief/Round is
--   `apply_belief_updates`. Economic is the handlers of simswarm/environments/economic.py, and
--   Economic/Balance is about them; Economic/Rounds is the end of a round with its metrics, and
--   Economic/Changes is about it. Market is simswarm/environments/market.py and market_amm.py: Slug
--   names the markets, Setup is `__init__`, Actions the handlers and the market maker, Moves the rest
--   of a round; Names, Ledger, History and Guards are about them, with Cases for the ways in which an
--   action can end. The search for a free id recurs on one turn more than there are ids.
--   Value is JSON and the records of simswarm/types.py; Bridge is simswarm/bridge.py; Loop is
--   `Engine.run` of simswarm/engine.py, over any environment that fills the interface of
--   simswarm/environments/base.py: State is its variables, Step the first part of a round, Rounds the
--   rest, the loop and `run`. The model's answers, and the order in which the steps of a round finish,
--   are parameters; a call of the model or of a tool may raise, which ends the run. Agents,
--   Environments, Digests, Coverage and Snapshots are about whole runs. Sweep is
--   simswarm/sweep.py, and Sweep/Product is about it.
-- - Sweeper: the sweeps beside the workflow. Cleanup is saas/jobs/cleanup.py and Stale is
--   saas/jobs/stale_detector.py, on the table of Jobs; Orphans, Reaping and Reports are about them.
-- - Poller: saas/jobs/pipeline.py with saas/jobs/status.py. Logs reads log lines; State holds the loop's
--   variables, what a poll finds and what the loop calls; Turn is one turn and the loop, which recurs on
--   the polls left (the source's max_polls, so no fuel is needed). What the polls find is a parameter.
--   Rules are the rules for the parts of a turn; Outage, Finish, Rounds and Watchdog are about the loop.
-- - Worker: infra/docker/worker_api.py, on the pod. State is the job of the worker with its routes, the
--   end of a pipeline and the upload of its files; Uploads and Phases are about it. The process and the
--   answers of the object storage are parameters.
--
-- Times are whole numbers of seconds. Not modelled: logging, HTTP and SQL transport, the retry
-- policies and timeouts inside Temporal, cancellation of a workflow, the prompts and answers of the
-- language models, report generation, the feed ranking of the social environment, the creation of
-- the environments from a configuration, and the web frontend.
pub mod Prelude
pub mod Jobs
pub mod Api
pub mod Workflow
pub mod Engine
pub mod Sweeper
pub mod Poller
pub mod Worker
