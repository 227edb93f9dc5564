-- ===== src/Tests/CacheRuns.antt =====
-- The job cache and the queue, run on the memory.
use samanager_backend.Base.{
  arith, ◌≡◌, refl, String, List, [], ◌∷◌, none, some, ok, length, if◌then◌else◌, str_eq, replicate,
}
use samanager_backend.Cache.Repo.{
  pending, JobCache, Codec, status_key, store_entry, read_entry, get_job_cache, delete_job_cache,
  add_job_cache, update_job_cache_user_op_hash, get_cache_statistics, get_job_caches_by_status,
  get_all_status_keys, read_key, count_statuses,
}
use samanager_backend.Cache.Laws.{cached}
use samanager_backend.Cache.Refinement.{
  Write, add, set_hash, delete, write, unless_failed, write_all, write_all_map, write_all-refines,
}
use samanager_backend.Cache.Statistics.{get_cache_statistics-agrees}
use samanager_backend.Cache.Queue.{queued}
use samanager_backend.Cache.Queue.Liveness.{Call, enqueue, dequeue, get_elem?, run, run-handed_out}
use samanager_backend.Tests.Stores.{memory-IsAvailable, Memory, memory, memory-IsLawful}
use samanager_backend.Tests.Samples.{
  job, other_job, new_entry, sent_entry, failed_entry, codec_of, codec_of-IsFaithful,
}

abbrev pub empty : Memory
empty = record { values = λ k. none; lists = λ q. []; names = [] }

-- After the scheduler has added the job "a".
abbrev pub added : Memory
added = record empty {
  values = λ k. if str_eq k "jobs:status:a" then some "first" else none;
  names = "jobs:status:a" ∷ [];
}

abbrev waiting : Memory
waiting = record empty { lists = λ q. if str_eq q "jobs" then "second" ∷ "first" ∷ [] else [] }

abbrev sent : Codec
sent = codec_of sent_entry

abbrev gone : Codec
gone = codec_of failed_entry

get_cache_statistics-agrees_example :
    (found : List JobCache) × ((get_job_caches_by_status memory sent "jobs" pending added).0
      ≡ ok found)
    × (length found ≡ 1)
unfolding get_cache_statistics count_statuses get_all_status_keys read_key
get_cache_statistics-agrees_example =
    get_cache_statistics-agrees memory sent "jobs" pending added
      (record { pending_count = 1; failed_count = 0; completed_count = 0; total_count = 1 }) refl
      refl

abbrev writes : List Write
writes = add new_entry 50 ∷ set_hash "a" (replicate 32 9) 60 ∷ delete "b" ∷ []

write_all-refines_example :
    ((j : String)
      → cached memory memory-IsLawful sent
          (codec_of-IsFaithful sent_entry)
          "jobs"
          (write_all memory sent "jobs" writes empty).1
          j
        ≡ write_all_map writes
            (cached memory memory-IsLawful sent (codec_of-IsFaithful sent_entry) "jobs" empty)
            j)
    × ((id : String) (job : JobCache)
        → (get_job_cache memory sent "jobs" id (write_all memory sent "jobs" writes empty).1).0
          ≡ ok job
        → write_all_map writes
            (cached memory memory-IsLawful sent (codec_of-IsFaithful sent_entry) "jobs" empty)
            id
          ≡ some job)
unfolding write_all write unless_failed add_job_cache update_job_cache_user_op_hash read_entry
    store_entry delete_job_cache status_key
write_all-refines_example =
    write_all-refines memory memory-IsLawful sent (codec_of-IsFaithful sent_entry) "jobs" writes
      empty refl

abbrev calls : List Call
calls = dequeue 1 ∷ enqueue job ∷ dequeue 1 ∷ []

run-handed_out_example : get_elem? (run memory sent "jobs" calls waiting).0 1 ≡ some (ok other_job)
unfolding queued memory-IsLawful
run-handed_out_example =
    run-handed_out memory memory-IsLawful sent (codec_of-IsFaithful sent_entry) "jobs"
      (memory-IsAvailable "jobs") calls waiting (ok job ∷ []) [] other_job refl (omega arith)
