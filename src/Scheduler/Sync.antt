-- ===== src/Scheduler/Sync.antt =====
-- Step 2 of a polling round: failed and completed jobs go from the cache to the table.
pub mod Order
use samanager_backend.Base.{String, List, [], ◌∷◌, Option, none, some, Reply, ok, err, Done}
use samanager_backend.Domain.Job.{
  DbJobStatus, queuing, completed as db_completed, failed as db_failed,
}
use samanager_backend.Jobs.Repo.{update_job_status}
use samanager_backend.Cache.Repo.{
  CacheJobStatus, pending, failed, completed, unknown, JobCache, get_job_caches_by_status,
}
use samanager_backend.Scheduler.World.{Services, World, on_cache, remove}

unfoldable pub convert_cache_status_to_db_status : CacheJobStatus → DbJobStatus
convert_cache_status_to_db_status failed = db_failed
convert_cache_status_to_db_status completed = db_completed
convert_cache_status_to_db_status pending = queuing
convert_cache_status_to_db_status (unknown text) = queuing

-- The message that goes to the table.
unfoldable pub sync_message : CacheJobStatus → JobCache → Option String
sync_message failed job = some job.error
sync_message completed job = none
sync_message pending job = none
sync_message (unknown text) job = none

module _ (p : Services) where
  unfoldable pub remove_if_done : Reply Done → String → World p → World p
  remove_if_done (err e) id w = w
  remove_if_done (ok _) id w = remove p id w

  -- One round of the loop.
  unfoldable pub sync_job : CacheJobStatus → JobCache → World p → World p
  unfolding remove_if_done
  sync_job status job w =
      let (reply, table) =
        update_job_status p.database p.texts job.job_id (convert_cache_status_to_db_status status)
          (sync_message status job) w.table in
      remove_if_done reply job.job_id (record w { table = table })

  unfoldable pub sync_jobs_to_database : List JobCache → CacheJobStatus → World p → World p
  sync_jobs_to_database [] status w = w
  sync_jobs_to_database (job ∷ jobs) status w =
      sync_jobs_to_database jobs status (sync_job status job w)

  unfoldable pub sync_read : CacheJobStatus → Reply (List JobCache) → World p → World p
  sync_read status (err e) w = w
  sync_read status (ok jobs) w = sync_jobs_to_database jobs status w

  unfoldable pub sync_status : CacheJobStatus → World p → World p
  unfolding sync_read
  sync_status status w =
      let (reply, w') =
        on_cache p (get_job_caches_by_status p.redis p.codec p.queue_name status) w in
      sync_read status reply w'

  unfoldable pub sync_cache_to_database : World p → World p
  sync_cache_to_database w = sync_status completed (sync_status failed w)
