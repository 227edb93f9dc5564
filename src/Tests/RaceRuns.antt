-- ===== src/Tests/RaceRuns.antt =====
-- A round that meets a job before its execution, run on the memory, the table and the network.
use samanager_backend.Base.{◌≡◌, refl, none, some, replicate}
use samanager_backend.Base.Digits.{digits, of_digits}
use samanager_backend.Erc4337.Hash.{get_user_op_hash}
use samanager_backend.Erc4337.Pack.{pack_user_op, pack_pair, put_limit, pack_paymaster}
use samanager_backend.Domain.Job.{queuing, failed as db_failed}
use samanager_backend.Blockchain.{
  get_client, get_client_locked, get_rpc_client, get_bundler_client, get_bundler_client_locked,
  get_bundler_url, find_pool, rpc_url,
}
use samanager_backend.Bundler.{
  is_zero_hash, dial_context, estimate_user_operation_gas, send_user_operation,
}
use samanager_backend.Execution.{
  execute_job, attempt, returned, unless_panic, extract_nonce_key, leading_signature, add_at,
  get_current_nonce, get_max_fee_per_gas, fees_of, sign_op, with_gas, send_signed,
}
use samanager_backend.Execution.Signing.{Sent}
use samanager_backend.Jobs.Repo.{
  update_job_status, find_active_jobs, to_entity_jobs, status_updates,
}
use samanager_backend.Cache.Repo.{
  JobCache, status_key, get_job_caches_by_status, collect_by_status, get_all_status_keys, read_key,
  get_cache_statistics, count_statuses, set_job_status, set_job_status_failed, delete_job_cache,
  store_entry,
}
use samanager_backend.Cache.Laws.{cached}
use samanager_backend.Scheduler.World.{World, set_failed, remove}
use samanager_backend.Scheduler.Receipts.{
  group_jobs_by_chain_id, add_to_chain, check_single_job_receipt, check_jobs,
  check_receipts_for_chain, check_chains, check_pending, check_receipts_for_pending_jobs,
}
use samanager_backend.Scheduler.Sync.{
  sync_jobs_to_database, sync_read, sync_status, sync_cache_to_database, sync_job, sync_message,
  remove_if_done, convert_cache_status_to_db_status,
}
use samanager_backend.Scheduler.Poll.{execute_job_logic, poll_job_logic, poll_active}
use samanager_backend.Scheduler.Poll.Race.{execute_job_logic-overtaken, FindsOnly, checked}
use samanager_backend.Tests.Stores.{memory, memory-IsLawful, table-IsLawful}
use samanager_backend.Tests.Samples.{new_entry, codec_of, codec_of-IsFaithful}
use samanager_backend.Tests.ChainRuns.{hashing, signer, signed_job, after}
use samanager_backend.Tests.SchedulerRuns.{services, world, without_hash}

-- The clock of this network shows its calls, of which the bundler's dialling is one.
abbrev late : JobCache
late = record without_hash { updated_at = 1 }

abbrev polled : World (services late)
polled = poll_job_logic (services late) (λ chains. chains) (λ groups. groups) (world late)

finds_only :
    FindsOnly
      (services late)
      memory-IsLawful
      (codec_of-IsFaithful late)
      table-IsLawful
      hashing
      signer
      new_entry
      (world late)
      "sepolia"
unfolding status_key set_failed set_job_status_failed set_job_status store_entry delete_job_cache
    get_job_caches_by_status collect_by_status get_all_status_keys read_key get_bundler_client
    get_bundler_client_locked get_bundler_url find_pool rpc_url dial_context update_job_status
    sync_job sync_message remove_if_done remove convert_cache_status_to_db_status
    get_cache_statistics count_statuses find_active_jobs to_entity_jobs status_updates
finds_only = record {
  pending_jobs = refl;
  has_bundler = refl;
  marks = refl;
  failed_jobs = refl;
  updates = refl;
  removes = refl;
  completed_jobs = refl;
  active_jobs = refl;
}

execute_job_logic-overtaken_example :
    (cached memory memory-IsLawful
        (codec_of late)
        (codec_of-IsFaithful late)
        "jobs"
        (checked
          (services late)
          memory-IsLawful
          (codec_of-IsFaithful late)
          table-IsLawful
          hashing
          signer
          new_entry
          (world late)).cache
        "a"
      ≡ some late)
    × Sent (services late).network hashing signer signed_job polled.chains (replicate 32 9)
    × ((w' : World (services late)) × (execute_job_logic
            (services late)
            hashing
            signer
            signed_job
            polled
          ≡ some w')
        × (cached memory memory-IsLawful
              (codec_of late)
              (codec_of-IsFaithful late)
              "jobs"
              w'.cache
              "a"
            ≡ none)
        × (table-IsLawful.row w'.table "a"
            ≡ some (record {
              status = db_failed;
              err_msg = some "Job has empty user operation hash";
            })))
unfolding execute_job get_bundler_client get_bundler_client_locked get_bundler_url get_rpc_client
    get_client get_client_locked find_pool rpc_url dial_context attempt returned unless_panic
    extract_nonce_key leading_signature add_at get_current_nonce get_max_fee_per_gas fees_of sign_op
    with_gas send_signed estimate_user_operation_gas send_user_operation get_user_op_hash digits
    of_digits pack_user_op pack_pair put_limit pack_paymaster is_zero_hash table-IsLawful
    poll_job_logic poll_active check_receipts_for_pending_jobs check_pending group_jobs_by_chain_id
    add_to_chain check_chains check_receipts_for_chain check_jobs check_single_job_receipt
    status_key sync_cache_to_database sync_status sync_read sync_jobs_to_database sync_job
    sync_message remove_if_done remove set_failed set_job_status_failed set_job_status store_entry
    delete_job_cache get_job_caches_by_status collect_by_status get_all_status_keys read_key
    get_cache_statistics count_statuses find_active_jobs update_job_status to_entity_jobs
    status_updates convert_cache_status_to_db_status
execute_job_logic-overtaken_example =
    execute_job_logic-overtaken (services late) memory-IsLawful (codec_of-IsFaithful late)
      table-IsLawful hashing signer (λ chains. chains) (λ groups. groups) "sepolia" new_entry
      signed_job (world late) (record { status = queuing; err_msg = none }) (replicate 32 9) after
      (λ x. refl) refl refl refl finds_only refl
