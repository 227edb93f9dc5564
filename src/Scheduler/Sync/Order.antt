-- ===== src/Scheduler/Sync/Order.antt =====
-- The table is written before the entry is removed.
use samanager_backend.Base.{
  ◌≡◌, refl, ◌∙◌, ◌⊎◌, inl, inr, String, Option, Reply-cases, Bool-cases, str_eq, eq_iff,
}
use samanager_backend.Jobs.Database.{IsLawful as IsLawfulTable}
use samanager_backend.Jobs.Repo.{update_job_status}
use samanager_backend.Jobs.Laws.{with_status, row-update_job_status}
use samanager_backend.Cache.Redis.{IsLawful}
use samanager_backend.Cache.Repo.{CacheJobStatus, JobCache, IsFaithful}
use samanager_backend.Cache.Laws.{cached, delete_job_cache-other}
use samanager_backend.Scheduler.World.{Services, World, remove}
use samanager_backend.Scheduler.Sync.{
  convert_cache_status_to_db_status, sync_message, sync_job, remove_if_done,
}

module _ (p : Services) (lawful : IsLawful p.redis) (faithful : IsFaithful p.codec)
    (rows : IsLawfulTable p.database) where
  abbrev entry : World p → String → Option JobCache
  entry w id = cached p.redis lawful p.codec faithful p.queue_name w.cache id

  -- When a failed or completed job is synced, no entry of the cache changes but the job's own, and that one
  -- only after the job's row has the status, and the message of a failure.
  pub sync_job-entry :
      (status : CacheJobStatus) (job : JobCache) (w : World p) (id : String)
      → (entry (sync_job p status job w) id ≡ entry w id)
        ⊎ ((job.job_id ≡ id)
            × (rows.row (sync_job p status job w).table id
                ≡ with_status
                    (convert_cache_status_to_db_status status)
                    (sync_message status job)
                    (rows.row w.table id)))
  unfolding sync_job remove_if_done remove
  sync_job-entry status job w id =
      elim (Reply-cases
        (update_job_status p.database p.texts job.job_id (convert_cache_status_to_db_status status)
          (sync_message status job) w.table).0) [
            | inr (e', e) ↦ inl (rw (e, sync_job) refl)
            | inl (done, e) ↦ elim (Bool-cases (str_eq job.job_id id)) [
              | inr differ ↦ inl (
                  rw (e, sync_job)
                    (delete_job_cache-other p.redis lawful p.codec faithful p.queue_name job.job_id
                      w.cache id differ))
              | inl same ↦
                  let own : job.job_id ≡ id = (eq_iff job.job_id id).0 same in
                  let written =
                    row-update_job_status p.database rows p.texts job.job_id
                      (convert_cache_status_to_db_status status) (sync_message status job) w.table
                      id e in
                  inr (own, rw (e, sync_job) (written ∙ rw (same, own) refl))
            ]
          ]
