-- ===== src/Tests/DemoRuns.antt =====
-- A report that has failed while it was marked as pending.
use samanager_backend.Base.{
  ℕ, ◌≡◌, refl, String, Bool, true, false, [], ◌∷◌, none, some, ok, str_eq, if◌then◌else◌, arith,
}
use samanager_backend.Demo.{
  Job, JobStatus, status_pending, status_success, status_failed, JobResult, Json, should_skip_job,
  store_result, mark_enqueued,
}
use samanager_backend.Demo.{check_and_enqueue_jobs, update_job_statuses}
use samanager_backend.Demo.Overtaken.{mark_enqueued-stuck, IsPending, here, checked, updated}
use samanager_backend.Tests.Sameness.{
  Test, of_ℕ, of_String, of_pair, through, encode_two, decode_two, decode_two-encode_two,
}
use samanager_backend.Tests.Stores.{Memory, memory, memory-IsLawful}
use samanager_backend.Tests.CacheRuns.{empty}

abbrev result_of_tuple : String × (JobStatus × (String × ℕ)) → JobResult
result_of_tuple (i, (s, (m, u))) = record { job_id = i; status = s; message = m; updated_at = u }

abbrev same_outcome : JobStatus → JobStatus → Bool
same_outcome status_pending status_pending = true
same_outcome status_success status_success = true
same_outcome status_failed status_failed = true
same_outcome _ _ = false

same_outcome_sound : (a b : JobStatus) → same_outcome a b ≡ true → a ≡ b
same_outcome_sound a b h = ground arith

abbrev of_JobResult : Test JobResult
of_JobResult =
    through (λ r. (r.job_id, (r.status, (r.message, r.updated_at)))) result_of_tuple (λ r. refl)
      (of_pair of_String (
        of_pair (record { same = same_outcome; sound = same_outcome_sound })
          (of_pair of_String of_ℕ)))

abbrev failed_report : JobResult
failed_report = record {
  job_id = "job_14_2";
  status = status_failed;
  message = "Report generation failed: database timeout";
  updated_at = 14;
}

abbrev marked_report : JobResult
marked_report = record {
  job_id = "job_14_2";
  status = status_pending;
  message = "Job enqueued for execution";
  updated_at = 14;
}

abbrev report : Job
report = record {
  id = "job_14_2";
  kind = "report";
  payload = [];
  scheduled_at = 14;
  created_at = 0;
}

abbrev json : Json
json = record {
  marshal_job = λ job. ok "report";
  unmarshal_job = λ text. ok report;
  marshal_result = encode_two of_JobResult failed_report marked_report;
  unmarshal_result = decode_two of_JobResult failed_report marked_report;
}

-- After the other loop has executed the job.
abbrev executed : Memory
executed = record empty {
  values = λ k. if str_eq k "jobs:status:job_14_2" then some "first" else none;
  names = "jobs:status:job_14_2" ∷ [];
}

abbrev marked : Memory
marked = mark_enqueued memory json "jobs" report 14 (ok tt, executed)

-- Ten minutes later.
abbrev cleaned : Memory
cleaned =
    check_and_enqueue_jobs memory json "jobs" 614 (report ∷ [])
      (update_job_statuses memory json "jobs" 614 marked)

mark_enqueued-stuck_example :
    IsPending memory memory-IsLawful json
      (decode_two-encode_two of_JobResult failed_report marked_report)
      "jobs"
      "jobs:status:job_14_2"
      cleaned
    × ((text : String)
        → (memory.get "jobs:status:job_14_2" cleaned).0 ≡ ok text
        → (should_skip_job memory json "jobs" "job_14_2" cleaned).0 ≡ true)
unfolding store_result
mark_enqueued-stuck_example =
    mark_enqueued-stuck memory memory-IsLawful json
      (decode_two-encode_two of_JobResult failed_report marked_report) "jobs" report 14 executed
      cleaned refl (checked 614 (report ∷ []) (updated 614 here))
