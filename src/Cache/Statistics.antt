-- ===== src/Cache/Statistics.antt =====
-- GetCacheStatistics against GetJobCachesByStatus.
use samanager_backend.Base.{
  ℕ, ◌+◌, ◌≡◌, refl, Bool, true, false, inl, inr, String, List, [], ◌∷◌, Option, none, some, ok,
  Reply-cases, arith, length, length-append,
}
use samanager_backend.Cache.Redis.{Redis}
use samanager_backend.Cache.Repo.{
  CacheJobStatus, pending, failed, completed, unknown, JobCache, Codec, CacheStatistics, Counts,
  count_job, keep_status, read_key, collect_by_status, count_statuses, get_all_status_keys,
  get_job_caches_by_status, get_cache_statistics, statistics,
}

abbrev tally : CacheJobStatus → Counts → ℕ
tally pending n = n.of_pending
tally failed n = n.of_failed
tally completed n = n.of_completed
tally (unknown text) n = 0

abbrev pub count_of : CacheJobStatus → CacheStatistics → ℕ
count_of pending st = st.pending_count
count_of failed st = st.failed_count
count_of completed st = st.completed_count
count_of (unknown text) st = 0

-- The statistics count the three constants.
abbrev pub is_counted : CacheJobStatus → Bool
is_counted pending = true
is_counted failed = true
is_counted completed = true
is_counted (unknown text) = false

abbrev no_counts : Counts
no_counts = record { of_pending = 0; of_failed = 0; of_completed = 0 }

module _ (r : Redis) (c : Codec) (q : String) where
  one_job :
      (status : CacheJobStatus) (job : Option JobCache) (found : List JobCache) (n : Counts)
      → is_counted status ≡ true
      → length (keep_status r c q status job found) + tally status n
        ≡ tally status (count_job r c q job n) + length found
  one_job pending none found n counted = omega arith
  one_job pending (some job) found n counted = ground (arith, length-append found (job ∷ []))
  one_job failed none found n counted = omega arith
  one_job failed (some job) found n counted = ground (arith, length-append found (job ∷ []))
  one_job completed none found n counted = omega arith
  one_job completed (some job) found n counted = ground (arith, length-append found (job ∷ []))
  one_job (unknown text) job found n counted = absurd (cc counted)

  loops_agree :
      (status : CacheJobStatus) (keys : List String) (n : Counts) (found : List JobCache)
      (s : r.State) (n' : Counts)
      → is_counted status ≡ true
      → (count_statuses r c q keys n s).0 ≡ ok n'
      → (found' : List JobCache) × ((collect_by_status r c q status keys found s).0 ≡ ok found')
        × (length found' + tally status n ≡ tally status n' + length found)
  unfolding count_statuses collect_by_status
  loops_agree status [] n found s n' counted h = (found, refl, ground arith)
  loops_agree status (key ∷ keys) n found s n' counted h =
      elim (Reply-cases (read_key r c q key s).0) [
        | inl (job, e) ↦
            let (found', same, sum) =
              loops_agree status keys (count_job r c q job n) (keep_status r c q status job found)
                (read_key r c q key s).1 n' counted (rw (e, count_statuses) at h) in
            (
              found',
              rw (e, collect_by_status) same,
              omega (arith, sum, one_job status job found n counted),
            )
        | inr (e', e) ↦ absurd (ground arith)
      ]

  count_of-statistics :
      (status : CacheJobStatus) (n : Counts) (st : CacheStatistics) (found : List JobCache)
      → is_counted status ≡ true
      → ok (statistics r c q n) ≡ ok st
      → length found + tally status no_counts ≡ tally status n + 0
      → length found ≡ count_of status st
  count_of-statistics pending n st found counted e sum = ground arith
  count_of-statistics failed n st found counted e sum = ground arith
  count_of-statistics completed n st found counted e sum = ground arith
  count_of-statistics (unknown text) n st found counted e sum = absurd (cc counted)

  -- When the statistics can be read, the jobs of each of the three statuses can be read from the same state of the
  -- server, and their number is the statistics' count of that status.
  pub get_cache_statistics-agrees :
      (status : CacheJobStatus) (s : r.State) (st : CacheStatistics)
      → is_counted status ≡ true
      → (get_cache_statistics r c q s).0 ≡ ok st
      → (found : List JobCache) × ((get_job_caches_by_status r c q status s).0 ≡ ok found)
        × (length found ≡ count_of status st)
  unfolding get_cache_statistics get_job_caches_by_status
  get_cache_statistics-agrees status s st counted h =
      elim (Reply-cases (get_all_status_keys r c q s).0) [
        | inl (keys, e) ↦
            let s' : r.State = (get_all_status_keys r c q s).1 in
            elim (Reply-cases (count_statuses r c q keys no_counts s').0) [
              | inl (n, f) ↦
                  let (found, same, sum) = loops_agree status keys no_counts [] s' n counted f in
                  let read : ok (statistics r c q n) ≡ ok st =
                    rw (e, get_cache_statistics, f) at h in
                  (
                    found,
                    rw (e, get_job_caches_by_status) same,
                    count_of-statistics status n st found counted read sum,
                  )
              | inr (e', f) ↦ cc (rw (e, get_cache_statistics, f) at h)
            ]
        | inr (e', e) ↦ cc (rw (e, get_cache_statistics) at h)
      ]
