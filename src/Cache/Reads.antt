-- ===== src/Cache/Reads.antt =====
-- src/repository/job_cache.go: GetJobCachesByStatus and GetCacheStatistics change no entry.
use samanager_backend.Base.{◌≡◌, refl, ◌∙◌, ap, String, List, [], ◌∷◌, Reply, ok, err}
use samanager_backend.Cache.Redis.{Redis, IsLawful}
use samanager_backend.Cache.Repo.{
  CacheJobStatus, JobCache, Codec, IsFaithful, Counts, Op, bind, continue, read_key,
  collect_by_status, keep_status, count_job, count_statuses, get_all_status_keys,
  get_job_caches_by_status, get_cache_statistics, wrap_op, lift, statistics, CacheStatistics,
  status_key,
}
use samanager_backend.Cache.Laws.{cached, decoded}

module _ (r : Redis) (lawful : IsLawful r) (c : Codec) (q : String) where
  -- A sequence of commands that leaves what every key holds.
  Reads {ℓ} : {A : Type ℓ} → Op r A → Type 0
  Reads f = (s : r.State) (k : String) → lawful.held (f s).1 k ≡ lawful.held s k

  continue-Reads {ℓ κ} :
      {A : Type ℓ} {B : Type κ} (reply : Reply A) (f : A → Op r B)
      → ((a : A) → Reads (f a))
      → Reads (continue r reply f)
  unfolding Reads
  continue-Reads (ok a) f reads s k = reads a s k
  continue-Reads (err e) f reads s k = refl

  bind-Reads {ℓ κ} :
      {A : Type ℓ} {B : Type κ} (m : Op r A) (f : A → Op r B)
      → Reads m
      → ((a : A) → Reads (f a))
      → Reads (bind r m f)
  unfolding Reads
  bind-Reads m f first reads s k = continue-Reads (m s).0 f reads (m s).1 k ∙ first s k

  read_key-Reads : (key : String) → Reads (read_key r c q key)
  unfolding Reads read_key
  read_key-Reads key = bind-Reads _ _ (λ s k. lawful.get_held key k s) (λ text s k. refl)

  keys-Reads : Reads (get_all_status_keys r c q)
  unfolding Reads get_all_status_keys
  keys-Reads s k = lawful.keys_held _ k s

  collect_by_status-Reads :
      (status : CacheJobStatus) (keys : List String) (found : List JobCache)
      → Reads (collect_by_status r c q status keys found)
  unfolding Reads collect_by_status
  collect_by_status-Reads status [] found s k = refl
  collect_by_status-Reads status (key ∷ keys) found s k =
      bind-Reads (read_key r c q key)
        (λ job. collect_by_status r c q status keys (keep_status r c q status job found))
        (read_key-Reads key)
        (λ job. collect_by_status-Reads status keys (keep_status r c q status job found)) s k

  count_statuses-Reads : (keys : List String) (n : Counts) → Reads (count_statuses r c q keys n)
  unfolding Reads count_statuses
  count_statuses-Reads [] n s k = refl
  count_statuses-Reads (key ∷ keys) n s k =
      bind-Reads (read_key r c q key) (λ job. count_statuses r c q keys (count_job r c q job n))
        (read_key-Reads key) (λ job. count_statuses-Reads keys (count_job r c q job n)) s k

  module _ (faithful : IsFaithful c) where
    pub cached-get_job_caches_by_status :
        (status : CacheJobStatus) (s : r.State) (id : String)
        → cached r lawful c faithful q (get_job_caches_by_status r c q status s).1 id
          ≡ cached r lawful c faithful q s id
    unfolding cached get_job_caches_by_status Reads
    cached-get_job_caches_by_status status s id = ap (decoded c) (
        bind-Reads (wrap_op r "failed to get status keys" (get_all_status_keys r c q))
          (λ keys. collect_by_status r c q status keys []) keys-Reads
          (λ keys. collect_by_status-Reads status keys []) s (status_key q id))

    pub cached-get_cache_statistics :
        (s : r.State) (id : String)
        → cached r lawful c faithful q (get_cache_statistics r c q s).1 id
          ≡ cached r lawful c faithful q s id
    unfolding cached get_cache_statistics Reads
    cached-get_cache_statistics s id = ap (decoded c) (
        bind-Reads (wrap_op r "failed to get status keys" (get_all_status_keys r c q))
          (λ keys. counted keys) keys-Reads
          (λ keys.
            bind-Reads (count_statuses r c q keys none_counted)
              (λ n. lift r (ok (statistics r c q n))) (count_statuses-Reads keys none_counted)
              (λ n t k. refl))
          s (status_key q id))
      where
        none_counted : Counts
        none_counted = record { of_pending = 0; of_failed = 0; of_completed = 0 }

        counted : List String → Op r CacheStatistics
        counted keys =
            bind r (count_statuses r c q keys none_counted) (λ n. lift r (ok (statistics r c q n)))
