-- ===== src/Scheduler/Kept/Sync.antt =====
-- Step 2 of a round writes a status that ends a job, so a job that has ended stays so.
use samanager_backend.Base.{
  ◌≡◌, ◌≢◌, refl, String, List, [], ◌∷◌, Option, Reply, ok, err, Done, Bool-cases, inl, inr, str_eq,
  eq_iff,
}
use samanager_backend.Domain.Job.{
  DbJobStatus, queuing, completed as db_completed, failed as db_failed,
}
use samanager_backend.Jobs.Database.{IsLawful}
use samanager_backend.Jobs.Repo.{update_job_status, status_updates}
use samanager_backend.Cache.Repo.{
  CacheJobStatus, failed, completed, JobCache, get_job_caches_by_status,
}
use samanager_backend.Scheduler.World.{Services, World}
use samanager_backend.Scheduler.Sync.{
  convert_cache_status_to_db_status, sync_message, remove_if_done, sync_job, sync_jobs_to_database,
  sync_read, sync_status, sync_cache_to_database,
}
use samanager_backend.Blockchain.Kept.{nothing_done as same_chains}
use samanager_backend.Scheduler.Kept.{
  Settled, updated-Settled, IsKept, nothing_done, in_turn, beside, remove-IsKept,
}

status_updates-status :
    (status : DbJobStatus) (message : Option String)
    → (status_updates status message).status ≡ status
unfolding status_updates
status_updates-status queuing message = refl
status_updates-status db_completed message = refl
status_updates-status db_failed message = refl

module _ (p : Services) (lawful : IsLawful p.database) where
  own_row-Settled :
      (id : String) (status : DbJobStatus) (message : Option String) (s : p.database.State)
      → status ≢ queuing
      → Settled (lawful.row s id)
      → Settled (lawful.row (p.database.update_with_id id (status_updates status message) s).1 id)
  own_row-Settled id status message s ends before =
      elim (lawful.update_row id (status_updates status message) s) [
        | inl kept ↦ rw kept before
        | inr changed ↦ rw changed (
            updated-Settled (status_updates status message) (lawful.row s id)
              (rw (status_updates-status status message) ends) before)
      ]

  update_job_status-Settled :
      (updated_id : String) (status : DbJobStatus) (message : Option String) (s : p.database.State)
      (id : String)
      → status ≢ queuing
      → Settled (lawful.row s id)
      → Settled (lawful.row (update_job_status p.database p.texts updated_id status message s).1 id)
  unfolding update_job_status
  update_job_status-Settled updated_id status message s id ends settled =
      elim (Bool-cases (str_eq updated_id id)) [
        | inr other ↦
            rw (lawful.update_other updated_id (status_updates status message) s id other) settled
        | inl same ↦
            let one : updated_id ≡ id = (eq_iff updated_id id).0 same in
            let before : Settled (lawful.row s updated_id) = rw one settled in
            rw (← one) (own_row-Settled updated_id status message s ends before)
      ]

  remove_if_done-IsKept :
      (reply : Reply Done) (id : String) (w : World p)
      → IsKept p lawful w (remove_if_done p reply id w)
  unfolding remove_if_done
  remove_if_done-IsKept (err e) id w = nothing_done p lawful w
  remove_if_done-IsKept (ok _) id w = remove-IsKept p lawful id w

  abbrev pub written : String → DbJobStatus → Option String → World p → World p
  written id status message w = record w {
    table = (update_job_status p.database p.texts id status message w.table).1;
  }

  pub written-IsKept :
      (id : String) (status : DbJobStatus) (message : Option String) (w : World p)
      → status ≢ queuing
      → IsKept p lawful w (written id status message w)
  written-IsKept id status message w ends = record {
    chains = same_chains p.network w.chains;
    rows = λ j. update_job_status-Settled id status message w.table j ends;
  }

  sync_job-IsKept :
      (status : CacheJobStatus) (job : JobCache) (w : World p)
      → convert_cache_status_to_db_status status ≢ queuing
      → IsKept p lawful w (sync_job p status job w)
  unfolding sync_job
  sync_job-IsKept status job w ends =
      let db_status = convert_cache_status_to_db_status status in
      let message = sync_message status job in
      let done = (update_job_status p.database p.texts job.job_id db_status message w.table).0 in
      in_turn p lawful w (written job.job_id db_status message w) _
        (written-IsKept job.job_id db_status message w ends)
        (remove_if_done-IsKept done job.job_id _)

  sync_jobs_to_database-IsKept :
      (status : CacheJobStatus) (jobs : List JobCache) (w : World p)
      → convert_cache_status_to_db_status status ≢ queuing
      → IsKept p lawful w (sync_jobs_to_database p jobs status w)
  unfolding sync_jobs_to_database
  sync_jobs_to_database-IsKept status [] w ends = nothing_done p lawful w
  sync_jobs_to_database-IsKept status (job ∷ jobs) w ends =
      in_turn p lawful w (sync_job p status job w) _ (sync_job-IsKept status job w ends)
        (sync_jobs_to_database-IsKept status jobs _ ends)

  sync_read-IsKept :
      (status : CacheJobStatus) (reply : Reply (List JobCache)) (w : World p)
      → convert_cache_status_to_db_status status ≢ queuing
      → IsKept p lawful w (sync_read p status reply w)
  unfolding sync_read
  sync_read-IsKept status (err e) w ends = nothing_done p lawful w
  sync_read-IsKept status (ok jobs) w ends = sync_jobs_to_database-IsKept status jobs w ends

  sync_status-IsKept :
      (status : CacheJobStatus) (w : World p)
      → convert_cache_status_to_db_status status ≢ queuing
      → IsKept p lawful w (sync_status p status w)
  unfolding sync_status
  sync_status-IsKept status w ends =
      let asked = get_job_caches_by_status p.redis p.codec p.queue_name status w.cache in
      in_turn p lawful w (record w { cache = asked.1 }) _ (beside p lawful w asked.1 w.chains.net)
        (sync_read-IsKept status asked.0 _ ends)

  pub sync_cache_to_database-IsKept : (w : World p) → IsKept p lawful w (sync_cache_to_database p w)
  unfolding sync_cache_to_database convert_cache_status_to_db_status
  sync_cache_to_database-IsKept w =
      in_turn p lawful w (sync_status p failed w) _ (sync_status-IsKept failed w (λ e. cc))
        (sync_status-IsKept completed _ (λ e. cc))
