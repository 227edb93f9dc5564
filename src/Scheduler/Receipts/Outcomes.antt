-- ===== src/Scheduler/Receipts/Outcomes.antt =====
-- What the receipt of a pending job does to its entry.
use samanager_backend.Base.{
  ◌≡◌, ◌≢◌, refl, ap, String, true, false, Option, none, some, Reply, ok, err, if◌then◌else◌,
  str_eq,
}
use samanager_backend.Base.Int.{pos}
use samanager_backend.Network.{UserOperationReceipt}
use samanager_backend.Bundler.{is_zero_hash, get_user_operation_receipt}
use samanager_backend.Cache.Redis.{IsLawful}
use samanager_backend.Cache.Repo.{
  JobCache, IsFaithful, failed, zero_hash, set_job_status_failed, delete_job_cache,
}
use samanager_backend.Cache.Laws.{cached, cached-set_job_status, cached-delete_job_cache}
use samanager_backend.Scheduler.World.{Services, World, set_failed, remove}
use samanager_backend.Scheduler.Receipts.{check_single_job_receipt, handle_receipt}

module _ (p : Services) (lawful : IsLawful p.redis) (faithful : IsFaithful p.codec) where
  abbrev entry : World p → String → Option JobCache
  entry w id = cached p.redis lawful p.codec faithful p.queue_name w.cache id

  -- A pending entry whose hash is still zero, as it is from its enqueuing until its job has been executed, is
  -- marked failed when the receipts are checked, if the cache can be written; the bundler is not asked.
  pub check_single_job_receipt-zero :
      (bundler : p.network.RpcClient) (job : JobCache) (w : World p) (id : String)
      → is_zero_hash job.user_op_hash ≡ true
      → (set_job_status_failed p.redis p.codec p.queue_name job.job_id
          "Job has empty user operation hash"
          (p.network.clock w.chains.net).0
          w.cache).0
        ≡ ok tt
      → entry (check_single_job_receipt p bundler job w) id ≡ (
          if str_eq job.job_id id
          then some (record {
            job_id = job.job_id;
            chain_id = pos 0;
            user_op_hash = zero_hash;
            status = failed;
            error = "Job has empty user operation hash";
            updated_at = (p.network.clock w.chains.net).0;
          })
          else entry w id)
  unfolding check_single_job_receipt set_failed set_job_status_failed
  check_single_job_receipt-zero bundler job w id zero done =
      rw (zero, check_single_job_receipt)
        (cached-set_job_status p.redis lawful p.codec faithful p.queue_name job.job_id failed
          (some "Job has empty user operation hash") (p.network.clock w.chains.net).0 w.cache id
          done)

  handle_waiting :
      (job : JobCache) (reply : Reply (Option UserOperationReceipt)) (w : World p)
      → ((receipt : UserOperationReceipt) → reply ≢ ok (some receipt))
      → handle_receipt p job reply w ≡ w
  unfolding handle_receipt
  handle_waiting job (err e) w h = refl
  handle_waiting job (ok none) w h = refl
  handle_waiting job (ok (some receipt)) w h = absurd (h receipt refl)

  -- Without a receipt, be it that the bundler has none yet or that the call fails, the cache stays as it is.
  pub check_single_job_receipt-waiting :
      (bundler : p.network.RpcClient) (job : JobCache) (w : World p)
      → is_zero_hash job.user_op_hash ≡ false
      → ((receipt : UserOperationReceipt)
          → (get_user_operation_receipt p.network bundler job.user_op_hash w.chains.net).0
            ≢ ok (some receipt))
      → (check_single_job_receipt p bundler job w).cache ≡ w.cache
  unfolding check_single_job_receipt
  check_single_job_receipt-waiting bundler job w hash none_yet =
      let (reply, net) =
        get_user_operation_receipt p.network bundler job.user_op_hash w.chains.net in
      rw (hash, check_single_job_receipt)
        (ap (λ (v : World p). v.cache)
          (handle_waiting job reply (record w { chains = record w.chains { net = net } }) none_yet))

  -- A receipt with success removes the entry, and no other, if the cache can be written.
  pub check_single_job_receipt-success :
      (bundler : p.network.RpcClient) (job : JobCache) (w : World p)
      (receipt : UserOperationReceipt) (id : String)
      → is_zero_hash job.user_op_hash ≡ false
      → (get_user_operation_receipt p.network bundler job.user_op_hash w.chains.net).0
        ≡ ok (some receipt)
      → receipt.success ≡ true
      → (delete_job_cache p.redis p.codec p.queue_name job.job_id w.cache).0 ≡ ok tt
      → entry (check_single_job_receipt p bundler job w) id
        ≡ (if str_eq job.job_id id then none else entry w id)
  unfolding check_single_job_receipt handle_receipt remove
  check_single_job_receipt-success bundler job w receipt id hash answer success done =
      rw (hash, check_single_job_receipt, answer, handle_receipt, success)
        (cached-delete_job_cache p.redis lawful p.codec faithful p.queue_name job.job_id w.cache id
          done)

  -- A receipt without success marks the entry as failed, and changes no other, if the cache can be written.
  pub check_single_job_receipt-failure :
      (bundler : p.network.RpcClient) (job : JobCache) (w : World p)
      (receipt : UserOperationReceipt) (net : p.network.State) (id : String)
      → is_zero_hash job.user_op_hash ≡ false
      → get_user_operation_receipt p.network bundler job.user_op_hash w.chains.net
        ≡ (ok (some receipt), net)
      → receipt.success ≡ false
      → (set_job_status_failed p.redis p.codec p.queue_name job.job_id
          "User operation failed on-chain"
          (p.network.clock net).0
          w.cache).0
        ≡ ok tt
      → entry (check_single_job_receipt p bundler job w) id ≡ (
          if str_eq job.job_id id
          then some (record {
            job_id = job.job_id;
            chain_id = pos 0;
            user_op_hash = zero_hash;
            status = failed;
            error = "User operation failed on-chain";
            updated_at = (p.network.clock net).0;
          })
          else entry w id)
  unfolding check_single_job_receipt handle_receipt set_failed set_job_status_failed
  check_single_job_receipt-failure bundler job w receipt net id hash answer success done =
      rw (hash, check_single_job_receipt, answer, handle_receipt, success)
        (cached-set_job_status p.redis lawful p.codec faithful p.queue_name job.job_id failed
          (some "User operation failed on-chain") (p.network.clock net).0 w.cache id done)
