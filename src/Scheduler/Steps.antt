-- ===== src/Scheduler/Steps.antt =====
-- The scheduler among the other parts, as a step relation: the rounds of pollJobs and processJobs of
-- src/service/scheduler.go, the requests of src/handler/job_handler.go, and what comes from outside. The two loops run
-- in goroutines of their own, and their rounds may overlap: the calls that a round is made of are steps too, so a
-- run of single calls in any order is a run of the relation. A pool is looked at before and after its lock is taken,
-- so the second look is a step by itself.
pub mod Safety
use samanager_backend.Base.{◌≡◌, ℕ, String, Bool, List, Option, some, Reply}
use samanager_backend.Base.{◌⊎◌}
use samanager_backend.Base.Int.{ℤ}
use samanager_backend.Blockchain.{
  close, get_client, get_client_locked, get_bundler_client, get_bundler_client_locked,
}
use samanager_backend.Jobs.Repo.{find_active_jobs, update_job_status}
use samanager_backend.Cache.Repo.{CacheJobStatus, failed, completed, JobCache}
use samanager_backend.Scheduler.Sync.{convert_cache_status_to_db_status, sync_message}
use samanager_backend.Erc4337.Hash.{Hashing}
use samanager_backend.Execution.{Signer}
use samanager_backend.Blockchain.Configs.{Group}
use samanager_backend.Scheduler.World.{Services, World}
use samanager_backend.Scheduler.Receipts.{ByChain}
use samanager_backend.Domain.Job.{EntityJob}
use samanager_backend.Scheduler.Poll.{poll_job_logic, execute_job_logic, process_job}
use samanager_backend.Http.Jobs.{RegisterJobRequest, register_job, get_job_list}

module _ (p : Services) (h : Hashing) (k : Signer) (is_hex_address : String → Bool)
    (format : ℕ → String) where
  pub data Step : World p → World p → Type 0 where
    polled :
        (chain_order : ByChain → ByChain) (order : List Group → List Group) (w : World p)
        → Step w (poll_job_logic p chain_order order w)
    processed : (w w' : World p) → process_job p h k w ≡ some w' → Step w w'
    -- one call of a round: the execution of a job that was taken from the queue
    executed :
        (job : EntityJob) (w w' : World p) → execute_job_logic p h k job w ≡ some w' → Step w w'
    registered :
        (bound : Reply RegisterJobRequest) (w : World p)
        → Step w (record w {
          table = (register_job p.database p.texts is_hex_address format bound w.table).1;
        })
    listed :
        (w : World p)
        → Step w
            (record w { table = (get_job_list p.database p.texts is_hex_address format w.table).1 })
    -- one call of a round: the pools
    called_client :
        (id : ℤ) (w : World p) → Step w (record w { chains = (get_client p.network id w.chains).1 })
    called_client_locked :
        (id : ℤ) (w : World p)
        → Step w (record w { chains = (get_client_locked p.network id w.chains).1 })
    called_bundler :
        (id : ℤ) (w : World p)
        → Step w (record w { chains = (get_bundler_client p.network id w.chains).1 })
    called_bundler_locked :
        (id : ℤ) (w : World p)
        → Step w (record w { chains = (get_bundler_client_locked p.network id w.chains).1 })
    -- the shutdown of the application
    closed : (w : World p) → Step w (record w { chains = close p.network w.chains })
    -- one call of a round: the table
    read_active :
        (w : World p)
        → Step w (record w { table = (find_active_jobs p.database p.texts w.table).1 })
    wrote_status :
        (status : CacheJobStatus) (job : JobCache) (w : World p)
        → (status ≡ failed) ⊎ (status ≡ completed)
        → Step w (record w {
          table =
              (update_job_status p.database p.texts job.job_id
                (convert_cache_status_to_db_status status)
                (sync_message status job)
                w.table).1;
        })
    -- the calls on the cache, on the network and of the clock, and whatever other processes do there
    outside :
        (cache : p.redis.State) (net : p.network.State) (w : World p)
        → Step w (record w { cache = cache; chains = record w.chains { net = net } })

  pub data Reach (w : World p) : World p → Type 0 where
    here : Reach w w
    next : {v u : World p} → Reach w v → Step v u → Reach w u
