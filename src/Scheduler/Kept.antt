-- ===== src/Scheduler/Kept.antt =====
-- What a polling round leaves as it was: the rows of the jobs that have ended, and the pools.
pub mod Sync
pub mod Polling
pub mod Processing
use samanager_backend.Base.{
  ◌≡◌, ◌≢◌, refl, ap, String, true, false, List, [], ◌∷◌, ◌++◌, Option, none, some, Reply, ok, err,
  Done, Bool-cases, Reply-cases, Option-cases, inl, inr, ℕ, str_eq, eq_iff, if◌then◌else◌,
}
use samanager_backend.Base.Int.{ℤ}
use samanager_backend.Domain.Job.{
  EntityJob, DbJobStatus, queuing, completed as db_completed, failed as db_failed,
}
use samanager_backend.Domain.Schedule.{ExecutionConfig}
use samanager_backend.Network.{UserOperationReceipt}
use samanager_backend.Jobs.Database.{IsLawful, Columns, Updates, updated}
use samanager_backend.Jobs.Repo.{find_active_jobs, update_job_status, status_updates}
use samanager_backend.Bundler.{is_zero_hash, get_user_operation_receipt}
use samanager_backend.Blockchain.{Chains, get_bundler_client}
use samanager_backend.Blockchain.Kept.{
  IsKept as IsKeptChains, nothing_done as same_chains, in_turn as then_chains, only_net,
  get_bundler_client-IsKept,
}
use samanager_backend.Blockchain.Configs.{Configs, Group, find_config, get_execution_configs_batch}
use samanager_backend.Blockchain.Configs.Kept.{get_execution_configs_batch-IsKept}
use samanager_backend.Cache.Repo.{
  CacheJobStatus, pending, failed, completed, JobCache, get_job_cache, get_job_caches_by_status,
  get_cache_statistics, enqueue_job,
}
use samanager_backend.Scheduler.World.{Services, World, on_cache, tick, set_failed, remove}
use samanager_backend.Scheduler.Receipts.{
  ByChain, handle_receipt, check_single_job_receipt, check_jobs, check_receipts_for_chain,
  check_chains, check_pending, check_receipts_for_pending_jobs, group_jobs_by_chain_id,
}
use samanager_backend.Scheduler.Sync.{
  convert_cache_status_to_db_status, sync_message, remove_if_done, sync_job, sync_jobs_to_database,
  sync_read, sync_status, sync_cache_to_database,
}
use samanager_backend.Scheduler.Poll.{
  Choice, skip, complete, execute, choose, is_ok, is_job_in_cache, apply_choice, select_job,
  filter_jobs, filter_read, fetch_execution_configs_and_filter_jobs, enqueue_added, add_and_enqueue,
  enqueue_jobs, enqueue_fetched, poll_active, poll_job_logic,
}

-- A job that has ended: its row is there, and no longer waits in the queue.
abbrev pub Settled : Option Columns → Type 0
Settled o = (row : Columns) × (o ≡ some row) × (row.status ≢ queuing)

pub updated-Settled :
    (u : Updates) (o : Option Columns) → u.status ≢ queuing → Settled o → Settled (updated u o)
updated-Settled u none h (row, e, ended) = cc
updated-Settled u (some r) h (row, e, ended) = (_, refl, h)

module _ (p : Services) (lawful : IsLawful p.database) where
  pub record IsKept (w w' : World p) : Type 0 where
    pub chains : IsKeptChains p.network w.chains w'.chains
    pub rows : (id : String) → Settled (lawful.row w.table id) → Settled (lawful.row w'.table id)

  pub nothing_done : (w : World p) → IsKept w w
  nothing_done w = record { chains = same_chains p.network w.chains; rows = λ id h. h }

  pub in_turn : (a b c : World p) → IsKept a b → IsKept b c → IsKept a c
  in_turn a b c f g = record {
    chains = then_chains p.network a.chains b.chains c.chains f.chains g.chains;
    rows = λ id h. g.rows id (f.rows id h);
  }

  -- Any other cache and network.
  pub beside :
      (w : World p) (cache : p.redis.State) (net : p.network.State)
      → IsKept w (record w { cache = cache; chains = record w.chains { net = net } })
  beside w cache net = record { chains = only_net p.network w.chains net; rows = λ id h. h }

  pub only_chains :
      (w : World p) (chains : Chains p.network)
      → IsKeptChains p.network w.chains chains
      → IsKept w (record w { chains = chains })
  only_chains w chains kept = record { chains = kept; rows = λ id h. h }

  pub set_failed-IsKept : (id message : String) (w : World p) → IsKept w (set_failed p id message w)
  unfolding set_failed
  set_failed-IsKept id message w = record {
    chains = only_net p.network w.chains _;
    rows = λ j h. h;
  }

  pub remove-IsKept : (id : String) (w : World p) → IsKept w (remove p id w)
  unfolding remove
  remove-IsKept id w = record { chains = same_chains p.network w.chains; rows = λ j h. h }

  handle_receipt-IsKept :
      (job : JobCache) (reply : Reply (Option UserOperationReceipt)) (w : World p)
      → IsKept w (handle_receipt p job reply w)
  unfolding handle_receipt
  handle_receipt-IsKept job (err e) w = nothing_done w
  handle_receipt-IsKept job (ok none) w = nothing_done w
  handle_receipt-IsKept job (ok (some receipt)) w = elim (Bool-cases receipt.success) [
    | inl e ↦ rw (e, handle_receipt) (remove-IsKept job.job_id w)
    | inr e ↦
        rw (e, handle_receipt) (set_failed-IsKept job.job_id "User operation failed on-chain" w)
  ]

  check_single_job_receipt-IsKept :
      (bundler : p.network.RpcClient) (job : JobCache) (w : World p)
      → IsKept w (check_single_job_receipt p bundler job w)
  unfolding check_single_job_receipt
  check_single_job_receipt-IsKept bundler job w =
      elim (Bool-cases (is_zero_hash job.user_op_hash)) [
        | inl e ↦
            rw (e, check_single_job_receipt)
              (set_failed-IsKept job.job_id "Job has empty user operation hash" w)
        | inr e ↦
            let asked =
              get_user_operation_receipt p.network bundler job.user_op_hash w.chains.net in
            rw (e, check_single_job_receipt)
              (in_turn w (record w { chains = record w.chains { net = asked.1 } }) _
                (beside w w.cache asked.1) (handle_receipt-IsKept job asked.0 _))
      ]

  check_jobs-IsKept :
      (bundler : p.network.RpcClient) (jobs : List JobCache) (w : World p)
      → IsKept w (check_jobs p bundler jobs w)
  unfolding check_jobs
  check_jobs-IsKept bundler [] w = nothing_done w
  check_jobs-IsKept bundler (job ∷ jobs) w =
      in_turn w (check_single_job_receipt p bundler job w) _
        (check_single_job_receipt-IsKept bundler job w) (check_jobs-IsKept bundler jobs _)

  check_receipts_for_chain-IsKept :
      (id : ℤ) (jobs : List JobCache) (w : World p)
      → IsKept w (check_receipts_for_chain p id jobs w)
  unfolding check_receipts_for_chain
  check_receipts_for_chain-IsKept id jobs w =
      let asked = get_bundler_client p.network id w.chains in
      let kept = only_chains w asked.1 (get_bundler_client-IsKept p.network id w.chains) in
      elim (Reply-cases asked.0) [
        | inr (x, e) ↦ rw (e, check_receipts_for_chain) kept
        | inl (bundler, e) ↦
            rw (e, check_receipts_for_chain) (in_turn w _ _ kept (check_jobs-IsKept bundler jobs _))
      ]

  check_chains-IsKept : (chains : ByChain) (w : World p) → IsKept w (check_chains p chains w)
  unfolding check_chains
  check_chains-IsKept [] w = nothing_done w
  check_chains-IsKept ((id, jobs) ∷ chains) w =
      in_turn w (check_receipts_for_chain p id jobs w) _ (check_receipts_for_chain-IsKept id jobs w)
        (check_chains-IsKept chains _)

  check_pending-IsKept :
      (order : ByChain → ByChain) (reply : Reply (List JobCache)) (w : World p)
      → IsKept w (check_pending p order reply w)
  unfolding check_pending
  check_pending-IsKept order (err e) w = nothing_done w
  check_pending-IsKept order (ok []) w = nothing_done w
  check_pending-IsKept order (ok (job ∷ jobs)) w =
      check_chains-IsKept (order (group_jobs_by_chain_id (job ∷ jobs) [])) w

  pub check_receipts_for_pending_jobs-IsKept :
      (order : ByChain → ByChain) (w : World p)
      → IsKept w (check_receipts_for_pending_jobs p order w)
  unfolding check_receipts_for_pending_jobs
  check_receipts_for_pending_jobs-IsKept order w =
      let asked = get_job_caches_by_status p.redis p.codec p.queue_name pending w.cache in
      in_turn w (record w { cache = asked.1 }) _ (beside w asked.1 w.chains.net)
        (check_pending-IsKept order asked.0 _)
