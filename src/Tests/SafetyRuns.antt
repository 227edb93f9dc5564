-- ===== src/Tests/SafetyRuns.antt =====
-- A run of the scheduler and of requests, from a table with a job that has ended.
use samanager_backend.Base.{◌≡◌, refl, List, none, some, ok, str_eq, if◌then◌else◌}
use samanager_backend.Domain.Job.{EntityJob, completed}
use samanager_backend.Jobs.Repo.{find_active_jobs}
use samanager_backend.Scheduler.World.{World}
use samanager_backend.Scheduler.Poll.{poll_job_logic}
use samanager_backend.Scheduler.Kept.{Settled}
use samanager_backend.Scheduler.Steps.{Reach, polled, registered, here, next}
use samanager_backend.Scheduler.Steps.Safety.{IsAbsent, find_active_jobs-ended}
use samanager_backend.Http.Jobs.{register_job}
use samanager_backend.Tests.Stores.{table-IsLawful}
use samanager_backend.Tests.Samples.{sent_entry}
use samanager_backend.Tests.JobRuns.{texts, row}
use samanager_backend.Tests.ChainRuns.{start, hashing, signer}
use samanager_backend.Tests.CacheRuns.{empty}
use samanager_backend.Tests.SchedulerRuns.{services}
use samanager_backend.Tests.HttpRuns.{is_known, times, request}

abbrev pub world : World (services sent_entry)
world = record {
  cache = empty;
  table = λ id. if str_eq id "a" then some (record row { status = completed }) else none;
  chains = start;
}

abbrev polled_world : World (services sent_entry)
polled_world = poll_job_logic (services sent_entry) (λ chains. chains) (λ groups. groups) world

abbrev later_world : World (services sent_entry)
later_world = record polled_world {
  table =
      (register_job (services sent_entry).database texts is_known times (ok request)
        polled_world.table).1;
}

run : Reach (services sent_entry) hashing signer is_known times world later_world
run =
    next (next here (polled (λ chains. chains) (λ groups. groups) world))
      (registered (ok request) polled_world)

find_active_jobs-ended_example :
    Settled (table-IsLawful.row later_world.table "a")
    × ((jobs : List EntityJob)
        → (find_active_jobs (services sent_entry).database texts later_world.table).0 ≡ ok jobs
        → IsAbsent "a" jobs)
unfolding table-IsLawful
find_active_jobs-ended_example =
    find_active_jobs-ended (services sent_entry) table-IsLawful hashing signer is_known times world
      later_world "a" run (record { status = completed; err_msg = none }, refl, λ e. cc)
