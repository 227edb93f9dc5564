-- ===== src/Tests/SchedulerRuns.antt =====
-- The scheduler's steps on the memory, the table and the network.
use samanager_backend.Base.{
  ◌≡◌, ◌⊎◌, refl, String, [], ◌∷◌, none, some, Error, failure, replicate, All, str_eq,
  if◌then◌else◌, error_text,
}
use samanager_backend.Base.Int.{pos}
use samanager_backend.Cache.Repo.{
  JobCache, failed, set_job_status, set_job_status_failed, store_entry,
}
use samanager_backend.Base.{◌+◌, ◌-◌, map, ok, false}
use samanager_backend.Network.{Network}
use samanager_backend.Cache.Laws.{cached}
use samanager_backend.Blockchain.{
  Chains, get_client, get_client_locked, get_rpc_client, get_bundler_client,
  get_bundler_client_locked, get_bundler_url, find_pool, rpc_url,
}
use samanager_backend.Blockchain.Configs.{Configs}
use samanager_backend.Bundler.{is_zero_hash, dial_context}
use samanager_backend.Execution.{
  execute_job, attempt, returned, unless_panic, extract_nonce_key, leading_signature,
  get_current_nonce,
}
use samanager_backend.Base.Digits.{digits, of_digits}
use samanager_backend.Jobs.Laws.{with_status}
use samanager_backend.Scheduler.World.{Services, World}
use samanager_backend.Scheduler.Sync.{sync_job, sync_message, convert_cache_status_to_db_status}
use samanager_backend.Scheduler.Sync.Order.{sync_job-entry}
use samanager_backend.Scheduler.Poll.{filter_jobs, execute_job_logic}
use samanager_backend.Scheduler.Poll.Selection.{IsDue, filter_jobs-All, execute_job_logic-failed}
use samanager_backend.Tests.Stores.{memory, memory-IsLawful, table, table-IsLawful}
use samanager_backend.Tests.Samples.{job, sent_entry, failed_entry, codec_of, codec_of-IsFaithful}
use samanager_backend.Tests.JobRuns.{texts, rows, config}
use samanager_backend.Tests.ChainRuns.{receipt_of, net, start, hashing, signer}
use samanager_backend.Tests.CacheRuns.{added, empty}

-- The services, with a codec that knows one more entry.
abbrev pub services : JobCache → Services
services entry = record {
  redis = memory;
  codec = codec_of entry;
  queue_name = "jobs";
  database = table;
  texts = texts;
  network = net;
}

abbrev pub world : (entry : JobCache) → World (services entry)
world entry = record { cache = added; table = rows; chains = start }

abbrev pub without_hash : JobCache
without_hash = record failed_entry { error = "Job has empty user operation hash"; updated_at = 0 }

sync_job-entry_example :
    (cached memory memory-IsLawful
        (codec_of failed_entry)
        (codec_of-IsFaithful failed_entry)
        "jobs"
        (sync_job (services failed_entry) failed failed_entry (world failed_entry)).cache
        "a"
      ≡ cached memory memory-IsLawful
          (codec_of failed_entry)
          (codec_of-IsFaithful failed_entry)
          "jobs"
          added
          "a")
    ⊎ ((failed_entry.job_id ≡ "a")
        × (table-IsLawful.row
              (sync_job (services failed_entry) failed failed_entry (world failed_entry)).table
              "a"
            ≡ with_status
                (convert_cache_status_to_db_status failed)
                (sync_message failed failed_entry)
                (table-IsLawful.row rows "a")))
sync_job-entry_example =
    sync_job-entry (services failed_entry) memory-IsLawful (codec_of-IsFaithful failed_entry)
      table-IsLawful failed failed_entry (world failed_entry) "a"

abbrev configs : Configs
configs = ("a", record config { start_date = none; last_execution_time = none }) ∷ []

abbrev fresh : World (services sent_entry)
fresh = record (world sent_entry) { cache = empty }

filter_jobs-All_example :
    All
      (IsDue (services sent_entry) configs (job ∷ []) fresh)
      (filter_jobs (services sent_entry) configs (job ∷ []) fresh).0
filter_jobs-All_example = filter_jobs-All (services sent_entry) configs (job ∷ []) fresh

abbrev unsigned : Error
unsigned = failure "dummy signature not found at expected position in user operation signature"

abbrev refused : JobCache
refused = record failed_entry {
  error = "dummy signature not found at expected position in user operation signature";
  updated_at = 3;
}

abbrev dialled : Chains net
dialled = record start {
  client_pool = (pos 11155111, "sepolia") ∷ [];
  bundler_pool = (pos 11155111, "sepolia") ∷ [];
  net = 3;
}

execute_job_logic-failed_example :
    (w' : World (services refused)) × (execute_job_logic
        (services refused)
        hashing
        signer
        job
        (world refused)
      ≡ some w')
    × ((id : String)
        → cached memory memory-IsLawful
            (codec_of refused)
            (codec_of-IsFaithful refused)
            "jobs"
            w'.cache
            id
          ≡ (if str_eq "a" id
              then some refused
              else cached memory memory-IsLawful
                  (codec_of refused)
                  (codec_of-IsFaithful refused)
                  "jobs"
                  added
                  id))
unfolding execute_job get_bundler_client get_bundler_client_locked get_bundler_url get_rpc_client
    get_client get_client_locked find_pool rpc_url dial_context attempt returned unless_panic
    extract_nonce_key leading_signature get_current_nonce digits of_digits set_job_status_failed
    set_job_status store_entry error_text
execute_job_logic-failed_example =
    execute_job_logic-failed (services refused) hashing signer memory-IsLawful
      (codec_of-IsFaithful refused) job (world refused) unsigned dialled refl refl

-- A network with one receipt: of the operation whose hash is 32 nines, which failed.
abbrev failing : Network
failing = record net {
  receipt = λ client hash s. (
    if is_zero_hash (map (λ b. b - 9) hash)
        then ok (receipt_of (hash) false)
        else ok (receipt_of (replicate 32 0) false),
    s + 1,
  );
}

abbrev on_failing : JobCache → Services
on_failing entry = record (services entry) { network = failing }

abbrev failing_world : (entry : JobCache) → World (on_failing entry)
failing_world entry = record {
  cache = added;
  table = rows;
  chains = record { urls = start.urls; client_pool = []; bundler_pool = []; net = 0 };
}

abbrev failed_on_chain : JobCache
failed_on_chain = record failed_entry { error = "User operation failed on-chain"; updated_at = 1 }

abbrev early_entry : JobCache
early_entry = record sent_entry { user_op_hash = replicate 32 99 }
