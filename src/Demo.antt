-- ===== src/Demo.antt =====
-- cmd/scheduler/main.go: a scheduler of its own that shows the queue and the status cache, over the same Redis commands.
-- `now` is what the clock shows, in seconds. An error that is only logged leaves the state that the call has made.
pub mod Overtaken
pub mod Loops
use samanager_backend.Base.{
  ℕ, ◌-◌, ◌%◌, ◌*◌, ◌≡◌, String, ◌<>◌, Bool, true, false, List, [], ◌∷◌, Option, none, some,
  failure, redis_nil, wrapped, Reply, ok, err, Done, str_eq, ltb, ◌==◌, ◌&&◌, ◌||◌, if◌then◌else◌,
}
use samanager_backend.Base.Int.{pos}
use samanager_backend.Cache.Redis.{Redis}
use samanager_backend.Http.Errors.{itoa}

pub record Job : Type 0 where
  pub id : String
  pub kind : String
  pub payload : List (String × String)
  pub scheduled_at : ℕ
  pub created_at : ℕ

pub data JobStatus : Type 0 where
  status_pending status_success status_failed : JobStatus

-- `JobCache`
pub record JobResult : Type 0 where
  pub job_id : String
  pub status : JobStatus
  pub message : String
  pub updated_at : ℕ

-- The JSON texts.
pub record Json : Type 0 where
  pub marshal_job : Job → Reply String
  pub unmarshal_job : String → Reply Job
  pub marshal_result : JobResult → Reply String
  pub unmarshal_result : String → Reply JobResult

abbrev wrap_marshal {ℓ} : {A : Type ℓ} → Reply A → Reply A
wrap_marshal (ok a) = ok a
wrap_marshal (err e) = err (wrapped "failed to marshal job" e)

-- `result.Status == StatusPending || result.Status == StatusSuccess`
unfoldable pub is_done_or_waiting : Reply JobResult → Bool
is_done_or_waiting (err e) = false
is_done_or_waiting (ok result) = elim result.status [
  | status_pending ↦ true
  | status_success ↦ true
  | status_failed ↦ false
]

-- The test "result.Status == StatusFailed && time.Since(result.UpdatedAt) > 5*time.Minute".
unfoldable pub is_stale : ℕ → Reply JobResult → Bool
is_stale now (err e) = false
is_stale now (ok result) = elim result.status [
  | status_pending ↦ false
  | status_success ↦ false
  | status_failed ↦ ltb (5 * 60) (now - result.updated_at)
]

-- `executeJobLogic`: the outcome of a job, and its message. `none` is a panic, of an empty id.
unfoldable pub simulate_job : ℕ → Job → Option (Bool × String)
simulate_job now job =
    if str_eq job.id ""
    then none
    else if str_eq job.kind "email"
    then some (true, "Email sent successfully")
    else if str_eq job.kind "report"
    then (if now % 7 == 0
        then some (false, "Report generation failed: database timeout")
        else some (true, "Report generated successfully"))
    else if str_eq job.kind "cleanup"
    then some (true, "Cleanup completed")
    else some (false, "Unknown job type")

unfoldable pub get_jobs_to_check : ℕ → List Job
get_jobs_to_check now =
    record {
      id = ("job_" <> itoa (pos now)) <> "_1";
      kind = "email";
      payload = ("recipient", "user@example.com") ∷ ("template", "welcome") ∷ [];
      scheduled_at = now;
      created_at = now - 60;
    }
    ∷ record {
      id = ("job_" <> itoa (pos now)) <> "_2";
      kind = "report";
      payload = ("report_type", "daily_summary") ∷ ("user_id", "123") ∷ [];
      scheduled_at = now;
      created_at = now - 120;
    }
    ∷ record {
      id = ("job_" <> itoa (pos now)) <> "_3";
      kind = "cleanup";
      payload = ("resource", "temp_files") ∷ ("older_than", "24h") ∷ [];
      scheduled_at = now;
      created_at = now - 30;
    }
    ∷ []

abbrev pub status_of : Bool → JobStatus
status_of true = status_success
status_of false = status_failed

module _ (r : Redis) (j : Json) (queue_name : String) where
  abbrev pub result_key : String → String
  result_key id = ((queue_name <> ":status") <> ":") <> id

  abbrev pub read_result : Reply String → Reply JobResult
  read_result (err e) = err e
  read_result (ok text) = j.unmarshal_result text

  unfoldable pub should_skip_job : String → r.State → Bool × r.State
  should_skip_job id s =
      let (reply, s') = r.get (result_key id) s in (is_done_or_waiting (read_result reply), s')

  -- `enqueueJob`
  unfoldable pub push_job : Job → r.State → Reply Done × r.State
  push_job job s = elim (wrap_marshal (j.marshal_job job)) [
    | err e ↦ (err e, s)
    | ok text ↦ r.lpush queue_name text s
  ]

  -- `setJobStatus`; its error is logged.
  unfoldable pub store_result : String → JobStatus → String → ℕ → r.State → Reply Done × r.State
  store_result id status message now s =
      let result : JobResult = record {
        job_id = id;
        status = status;
        message = message;
        updated_at = now;
      } in
      elim (j.marshal_result result) [
        | err e ↦ (err e, s)
        | ok text ↦ r.set (result_key id) text (24 * 3600) s
      ]

  unfoldable pub mark_enqueued : Job → ℕ → Reply Done × r.State → r.State
  mark_enqueued job now (err e, s) = s
  mark_enqueued job now (ok _, s) =
      (store_result job.id status_pending "Job enqueued for execution" now s).1

  unfoldable pub check_job : ℕ → Job → Bool × r.State → r.State
  unfolding mark_enqueued
  check_job now job (true, s) = s
  check_job now job (false, s) = mark_enqueued job now (push_job job s)

  unfoldable pub check_and_enqueue_jobs : ℕ → List Job → r.State → r.State
  check_and_enqueue_jobs now [] s = s
  check_and_enqueue_jobs now (job ∷ jobs) s =
      check_and_enqueue_jobs now jobs (check_job now job (should_skip_job job.id s))

  -- `processJob`
  unfoldable pub run_job : Job → ℕ → r.State → Option r.State
  run_job job now s = elim (simulate_job now job) [
    | none ↦ none
    | some (success, message) ↦ some (store_result job.id (status_of success) message now s).1
  ]

  execute_popped : ℕ → Reply String × r.State → Option r.State
  execute_popped now (err e, s) = some s
  execute_popped now (ok text, s) = elim (j.unmarshal_job text) [
    | err e ↦ some s
    | ok job ↦ run_job job now s
  ]

  -- One round of `executeJobs`.
  unfoldable pub execute_next : ℕ → r.State → Option r.State
  unfolding execute_popped
  execute_next now s = execute_popped now (r.brpop 1 queue_name s)

  unfoldable pub delete_stale : Bool → String → r.State → r.State
  delete_stale false key s = s
  delete_stale true key s = (r.del key s).1

  unfoldable pub check_job_status_update : ℕ → String → r.State → r.State
  unfolding delete_stale
  check_job_status_update now key s =
      let (reply, s') = r.get key s in delete_stale (is_stale now (read_result reply)) key s'

  unfoldable pub check_keys : ℕ → List String → r.State → r.State
  check_keys now [] s = s
  check_keys now (key ∷ keys) s = check_keys now keys (check_job_status_update now key s)

  unfoldable pub update_job_statuses : ℕ → r.State → r.State
  update_job_statuses now s =
      let (reply, s') = r.keys ((queue_name <> ":status") <> ":*") s in
      elim reply [ err e ↦ s' | ok keys ↦ check_keys now keys s' ]

  abbrev name_missing : Reply String → Reply String
  name_missing (ok text) = ok text
  name_missing (err redis_nil) = err (failure "job status not found")
  name_missing (err e) = err e

  -- `GetJobCache`
  unfoldable pub get_result : String → r.State → Reply JobResult × r.State
  get_result id s =
      let (reply, s') = r.get (result_key id) s in (read_result (name_missing reply), s')
