-- ===== src/Scheduler/World.antt =====
-- What the scheduler works on: the cache and its queue in Redis, the jobs table, the pools. Each repository call
-- reads the clock for itself; an error that is only logged leaves the state that the call has made.
use samanager_backend.Base.{ℕ, String, Reply}
use samanager_backend.Domain.Job.{Texts}
use samanager_backend.Jobs.Database.{Database}
use samanager_backend.Network.{Network}
use samanager_backend.Cache.Redis.{Redis}
use samanager_backend.Cache.Repo.{Codec, set_job_status_failed, delete_job_cache, Op}
use samanager_backend.Blockchain.{Chains}

pub record Services : Type 1 where
  pub redis : Redis
  pub codec : Codec
  pub queue_name : String
  pub database : Database
  pub texts : Texts
  pub network : Network

module _ (p : Services) where
  pub record World : Type 0 where
    pub cache : p.redis.State
    pub table : p.database.State
    pub chains : Chains p.network

  abbrev pub on_cache {ℓ} : {A : Type ℓ} → Op p.redis A → World → Reply A × World
  on_cache f w = ((f w.cache).0, record w { cache = (f w.cache).1 })

  abbrev pub tick : World → ℕ × World
  tick w = (
    (p.network.clock w.chains.net).0,
    record w { chains = record w.chains { net = (p.network.clock w.chains.net).1 } },
  )

  -- `if err := SetJobStatusFailed(...); err != nil { log }`
  unfoldable pub set_failed : String → String → World → World
  set_failed id message w =
      (on_cache (set_job_status_failed p.redis p.codec p.queue_name id message (tick w).0)
        (tick w).1).1

  unfoldable pub remove : String → World → World
  remove id w = (on_cache (delete_job_cache p.redis p.codec p.queue_name id) w).1
