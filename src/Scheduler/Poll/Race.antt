-- ===== src/Scheduler/Poll/Race.antt =====
-- A polling round of src/service/scheduler.go that meets a job between its enqueuing and its execution.
use samanager_backend.Base.{
  ℕ, ◌≡◌, ◌∙◌, refl, String, List, [], ◌∷◌, Option, none, some, ok, eq_iff, true,
}
use samanager_backend.Base.Int.{ℤ, pos}
use samanager_backend.Domain.Job.{EntityJob, failed as db_failed, queuing}
use samanager_backend.Erc4337.Hash.{Hashing}
use samanager_backend.Execution.{Signer, execute_job}
use samanager_backend.Execution.Signing.{Sent, execute_job-Sent}
use samanager_backend.Blockchain.{Chains, get_bundler_client}
use samanager_backend.Blockchain.Configs.{Group}
use samanager_backend.Bundler.{is_zero_hash}
use samanager_backend.Jobs.Database.{IsLawful as IsLawfulTable, Columns}
use samanager_backend.Jobs.Repo.{update_job_status, find_active_jobs}
use samanager_backend.Jobs.Laws.{row-update_job_status}
use samanager_backend.Cache.Redis.{IsLawful}
use samanager_backend.Cache.Repo.{
  JobCache, IsFaithful, pending, failed, completed, zero_hash, set_job_status_failed,
  delete_job_cache, get_job_caches_by_status, get_cache_statistics,
}
use samanager_backend.Cache.Laws.{
  cached, cached-set_job_status, cached-delete_job_cache, update_job_cache_user_op_hash-missing,
}
use samanager_backend.Cache.Reads.{cached-get_job_caches_by_status, cached-get_cache_statistics}
use samanager_backend.Scheduler.World.{Services, World, set_failed, remove, on_cache}
use samanager_backend.Scheduler.Receipts.{
  ByChain, group_jobs_by_chain_id, add_to_chain, check_single_job_receipt, check_jobs,
  check_receipts_for_chain, check_chains, check_pending, check_receipts_for_pending_jobs,
}
use samanager_backend.Scheduler.Sync.{
  convert_cache_status_to_db_status, sync_message, sync_job, remove_if_done, sync_jobs_to_database,
  sync_read, sync_status, sync_cache_to_database,
}
use samanager_backend.Scheduler.Poll.{
  execute_job_logic, record_outcome, poll_active, poll_job_logic,
}

module _ (p : Services) (lawful : IsLawful p.redis) (faithful : IsFaithful p.codec)
    (rows : IsLawfulTable p.database) (h : Hashing) (k : Signer) where
  abbrev entry : World p → String → Option JobCache
  entry w id = cached p.redis lawful p.codec faithful p.queue_name w.cache id

  -- The entry that a check leaves in the place of one without a hash.
  abbrev pub marked : JobCache → World p → JobCache
  marked e w = record {
    job_id = e.job_id;
    chain_id = pos 0;
    user_op_hash = zero_hash;
    status = failed;
    error = "Job has empty user operation hash";
    updated_at = (p.network.clock w.chains.net).0;
  }

  -- The round, up to where it comes to the entry, and after each call that it makes from there on.
  abbrev pub dialled : JobCache → World p → World p
  dialled e w = record w {
    cache = (get_job_caches_by_status p.redis p.codec p.queue_name pending w.cache).1;
    chains = (get_bundler_client p.network e.chain_id w.chains).1;
  }

  abbrev pub checked : JobCache → World p → World p
  checked e w = set_failed p e.job_id "Job has empty user operation hash" (dialled e w)

  abbrev pub failed_read : JobCache → World p → World p
  failed_read e w =
      (on_cache p (get_job_caches_by_status p.redis p.codec p.queue_name failed) (checked e w)).1

  abbrev pub synced : JobCache → World p → World p
  synced e w = sync_job p failed (marked e (dialled e w)) (failed_read e w)

  abbrev pub completed_read : JobCache → World p → World p
  completed_read e w =
      (on_cache p (get_job_caches_by_status p.redis p.codec p.queue_name completed) (synced e w)).1

  abbrev pub counted : JobCache → World p → World p
  counted e w =
      (on_cache p (get_cache_statistics p.redis p.codec p.queue_name) (completed_read e w)).1

  -- What the stores answer to a round that finds this pending entry and no other job: each read and each write succeeds,
  -- and after the entry was marked it is the one that is read as failed.
  pub record FindsOnly (e : JobCache) (w : World p) (bundler : p.network.RpcClient) : Type 0 where
    pub pending_jobs :
        (get_job_caches_by_status p.redis p.codec p.queue_name pending w.cache).0 ≡ ok (e ∷ [])
    pub has_bundler : (get_bundler_client p.network e.chain_id w.chains).0 ≡ ok bundler
    pub marks :
        (set_job_status_failed p.redis p.codec p.queue_name e.job_id
          "Job has empty user operation hash"
          (p.network.clock (dialled e w).chains.net).0
          (dialled e w).cache).0
        ≡ ok tt
    pub failed_jobs :
        (get_job_caches_by_status p.redis p.codec p.queue_name failed (checked e w).cache).0
        ≡ ok (marked e (dialled e w) ∷ [])
    pub updates :
        (update_job_status p.database p.texts e.job_id db_failed
          (some "Job has empty user operation hash")
          w.table).0
        ≡ ok tt
    pub removes :
        (delete_job_cache p.redis p.codec p.queue_name e.job_id (failed_read e w).cache).0 ≡ ok tt
    pub completed_jobs :
        (get_job_caches_by_status p.redis p.codec p.queue_name completed (synced e w).cache).0
        ≡ ok []
    pub active_jobs : (find_active_jobs p.database p.texts (counted e w).table).0 ≡ ok []

  sync_job-done :
      (e : JobCache) (w : World p) (row : Columns)
      → (update_job_status p.database p.texts e.job_id db_failed (some e.error) w.table).0 ≡ ok tt
      → (delete_job_cache p.redis p.codec p.queue_name e.job_id w.cache).0 ≡ ok tt
      → rows.row w.table e.job_id ≡ some row
      → (entry (sync_job p failed e w) e.job_id ≡ none)
        × (rows.row (sync_job p failed e w).table e.job_id
            ≡ some (record { status = db_failed; err_msg = some e.error }))
  unfolding sync_job remove_if_done remove convert_cache_status_to_db_status sync_message
  sync_job-done e w row updated removed there =
      let own = (eq_iff e.job_id e.job_id).1 refl in
      (
        rw (updated, sync_job)
            (cached-delete_job_cache p.redis lawful p.codec faithful p.queue_name e.job_id w.cache
                e.job_id removed
              ∙ rw own refl),
        rw (updated, sync_job)
            (row-update_job_status p.database rows p.texts e.job_id db_failed (some e.error) w.table
                e.job_id updated
              ∙ rw (own, there) refl),
      )

  module _ (e : JobCache) (w : World p) (bundler : p.network.RpcClient)
      (finds : FindsOnly e w bundler) (zero : is_zero_hash e.user_op_hash ≡ true) where
    check_receipts-checked :
        (chain_order : ByChain → ByChain)
        → ((x : ℤ × List JobCache) → chain_order (x ∷ []) ≡ x ∷ [])
        → check_receipts_for_pending_jobs p chain_order w ≡ checked e w
    unfolding check_receipts_for_pending_jobs check_pending group_jobs_by_chain_id add_to_chain
        check_chains check_receipts_for_chain check_jobs check_single_job_receipt
    check_receipts-checked chain_order one =
        rw
          (
            finds.pending_jobs,
            check_receipts_for_pending_jobs,
            check_pending,
            one (e.chain_id, e ∷ []),
            check_chains,
            check_receipts_for_chain,
            finds.has_bundler,
            check_jobs,
            check_single_job_receipt,
            zero,
          )
          refl

    sync_cache-completed_read : sync_cache_to_database p (checked e w) ≡ completed_read e w
    unfolding sync_cache_to_database sync_status sync_read sync_jobs_to_database
    sync_cache-completed_read =
        rw (finds.failed_jobs, sync_status, sync_read, finds.completed_jobs) refl

    polled :
        (chain_order : ByChain → ByChain) (order : List Group → List Group)
        → ((x : ℤ × List JobCache) → chain_order (x ∷ []) ≡ x ∷ [])
        → poll_job_logic p chain_order order w ≡ record (counted e w) {
          table = (find_active_jobs p.database p.texts (counted e w).table).1;
        }
    unfolding poll_job_logic poll_active
    polled chain_order order one =
        rw
          (
            poll_job_logic,
            check_receipts-checked chain_order one,
            sync_cache-completed_read,
            finds.active_jobs,
          )
          refl

    polled-done :
        (chain_order : ByChain → ByChain) (order : List Group → List Group) (row : Columns)
        → ((x : ℤ × List JobCache) → chain_order (x ∷ []) ≡ x ∷ [])
        → rows.row w.table e.job_id ≡ some row
        → (entry (poll_job_logic p chain_order order w) e.job_id ≡ none)
          × (rows.row (poll_job_logic p chain_order order w).table e.job_id
              ≡ some (record {
                status = db_failed;
                err_msg = some "Job has empty user operation hash";
              }))
    unfolding set_failed find_active_jobs
    polled-done chain_order order row one there =
        let (gone, failed_row) =
          sync_job-done (marked e (dialled e w)) (failed_read e w) row finds.updates finds.removes
            there in
        rw (polled chain_order order one) (
          cached-get_cache_statistics p.redis lawful p.codec p.queue_name faithful
                (completed_read e w).cache e.job_id
              ∙ cached-get_job_caches_by_status p.redis lawful p.codec p.queue_name faithful
                  completed (synced e w).cache e.job_id
              ∙ gone,
          rows.find_with_status_row queuing (counted e w).table e.job_id ∙ failed_row,
        )

  recorded :
      (job : EntityJob) (w : World p) (hash : List ℕ) (chains : Chains p.network)
      → execute_job p.network h k job w.chains ≡ some (ok hash, chains)
      → entry w job.id ≡ none
      → (w' : World p) × (execute_job_logic p h k job w ≡ some w')
        × (entry w' job.id ≡ none)
        × (rows.row w'.table job.id ≡ rows.row w.table job.id)
  unfolding execute_job_logic record_outcome
  recorded job w hash chains run gone = (
    record_outcome p h k job (ok hash) (record w { chains = chains }),
    rw (run, execute_job_logic) refl,
    update_job_cache_user_op_hash-missing p.redis lawful p.codec faithful p.queue_name job.id hash
          (p.network.clock chains.net).0 w.cache gone job.id
        ∙ gone,
    refl,
  )

  -- A round finds the entry of a job that still waits for its execution, and no other job, and its reads and writes
  -- succeed: it marks the entry as failed, writes to the table that the job has failed, and removes the entry. If the
  -- job, taken from the queue after that, is executed with success, its operation has been sent all the same, while its
  -- row stays failed and no entry is left to wait for the receipt by.
  pub execute_job_logic-overtaken :
      (chain_order : ByChain → ByChain) (order : List Group → List Group)
      (bundler : p.network.RpcClient) (e : JobCache) (job : EntityJob) (w : World p) (row : Columns)
      (hash : List ℕ) (chains : Chains p.network)
      → ((x : ℤ × List JobCache) → chain_order (x ∷ []) ≡ x ∷ [])
      → e.job_id ≡ job.id
      → is_zero_hash e.user_op_hash ≡ true
      → rows.row w.table e.job_id ≡ some row
      → FindsOnly e w bundler
      → execute_job p.network h k job (poll_job_logic p chain_order order w).chains
        ≡ some (ok hash, chains)
      → (entry (checked e w) e.job_id ≡ some (marked e (dialled e w)))
        × Sent p.network h k job (poll_job_logic p chain_order order w).chains hash
        × ((w' : World p) × (execute_job_logic p h k job (poll_job_logic p chain_order order w)
              ≡ some w')
            × (entry w' job.id ≡ none)
            × (rows.row w'.table job.id
                ≡ some (record {
                  status = db_failed;
                  err_msg = some "Job has empty user operation hash";
                })))
  unfolding set_failed set_job_status_failed
  execute_job_logic-overtaken chain_order order bundler e job w row hash chains one same zero there
        finds run =
      let own = (eq_iff e.job_id e.job_id).1 refl in
      let (gone, failed_row) = polled-done e w bundler finds zero chain_order order row one there in
      let (w', ran, empty, row_kept) =
        recorded job (poll_job_logic p chain_order order w) hash chains run (rw (← same) gone) in
      (
        cached-set_job_status p.redis lawful p.codec faithful p.queue_name e.job_id failed
              (some "Job has empty user operation hash")
              (p.network.clock (dialled e w).chains.net).0 (dialled e w).cache e.job_id finds.marks
            ∙ rw own refl,
        execute_job-Sent p.network h k job _ hash chains run,
        (w', ran, empty, row_kept ∙ rw (← same) failed_row),
      )
