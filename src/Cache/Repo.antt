-- ===== src/Cache/Repo.antt =====
-- src/repository/job_cache.go, JobCacheRepository. Each operation runs under the repository's mutex,
-- so it is one function of the server's state; `now` is what `time.Now()` returns in it.
use samanager_backend.Base.{
  ℕ, ◌+◌, ◌*◌, ◌≡◌, String, ◌<>◌, Bool, true, false, List, [], ◌∷◌, ◌++◌, Option, none, some,
  redis_nil, wrapped, Reply, ok, err, Done, if◌then◌else◌, str_eq,
}
use samanager_backend.Base.Int.{ℤ, pos}
use samanager_backend.Base.Digits.{zeros}
use samanager_backend.Domain.Job.{EntityJob}
use samanager_backend.Cache.Redis.{Redis}

-- A string: its three constants, and any other text that an entry may have.
pub data CacheJobStatus : Type 0 where
  pending failed completed : CacheJobStatus
  unknown : String → CacheJobStatus

pub record JobCache : Type 0 where
  pub job_id : String
  pub chain_id : ℤ
  pub user_op_hash : List ℕ
  pub status : CacheJobStatus
  pub error : String
  pub updated_at : ℕ

-- `common.Hash{}`
abbrev pub zero_hash : List ℕ
zero_hash = zeros 32

abbrev pub same_status : CacheJobStatus → CacheJobStatus → Bool
same_status pending pending = true
same_status failed failed = true
same_status completed completed = true
same_status (unknown a) (unknown b) = str_eq a b
same_status _ _ = false

-- The JSON texts of the values in Redis.
pub record Codec : Type 0 where
  pub encode_cache : JobCache → Reply String
  pub decode_cache : String → Reply JobCache
  pub encode_job : EntityJob → Reply String
  pub decode_job : String → Reply EntityJob

pub record IsFaithful (c : Codec) : Type 0 where
  pub decode_cache-encode_cache :
      (j : JobCache) (t : String) → c.encode_cache j ≡ ok t → c.decode_cache t ≡ ok j
  pub decode_job-encode_job :
      (j : EntityJob) (t : String) → c.encode_job j ≡ ok t → c.decode_job t ≡ ok j

-- 24 hours
abbrev pub cache_ttl : ℕ
cache_ttl = 24 * 3600

pub record CacheStatistics : Type 0 where
  pub pending_count : ℕ
  pub failed_count : ℕ
  pub completed_count : ℕ
  pub total_count : ℕ

-- `fmt.Errorf("text: %w", err)`
abbrev pub wrap_error {ℓ} : {A : Type ℓ} → String → Reply A → Reply A
wrap_error text (ok a) = ok a
wrap_error text (err e) = err (wrapped text e)

-- The counters of GetCacheStatistics that it reads: one for each constant.
pub record Counts : Type 0 where
  pub of_pending : ℕ
  pub of_failed : ℕ
  pub of_completed : ℕ

abbrev pub count_one : CacheJobStatus → Counts → Counts
count_one pending n = record n { of_pending = n.of_pending + 1 }
count_one failed n = record n { of_failed = n.of_failed + 1 }
count_one completed n = record n { of_completed = n.of_completed + 1 }
count_one (unknown text) n = n

module _ (r : Redis) where
  -- A command sequence that stops at the first error.
  abbrev pub Op {ℓ} : Type ℓ → Type ℓ
  Op A = r.State → Reply A × r.State

  abbrev pub continue {ℓ κ} : {A : Type ℓ} {B : Type κ} → Reply A → (A → Op B) → Op B
  continue (ok a) f s = f a s
  continue (err e) f s = (err e, s)

  abbrev pub bind {ℓ κ} : {A : Type ℓ} {B : Type κ} → Op A → (A → Op B) → Op B
  bind m f s = continue (m s).0 f (m s).1

  abbrev pub lift {ℓ} : {A : Type ℓ} → Reply A → Op A
  lift reply s = (reply, s)

  abbrev pub wrap_op {ℓ} : {A : Type ℓ} → String → Op A → Op A
  wrap_op text m s = (wrap_error text (m s).0, (m s).1)

-- `queueName + ":status"`, and the key of a job
abbrev pub status_cache : String → String
status_cache queue_name = queue_name <> ":status"

unfoldable pub status_key : String → String → String
status_key queue_name id = (status_cache queue_name <> ":") <> id

module _ (r : Redis) (c : Codec) (queue_name : String) where
  unfoldable pub enqueue_job : EntityJob → Op r Done
  enqueue_job job =
      bind r (lift r (wrap_error "failed to marshal job" (c.encode_job job)))
        (λ job_data. r.lpush queue_name job_data)

  unfoldable pub dequeue_job : ℕ → Op r EntityJob
  dequeue_job timeout =
      bind r (r.brpop timeout queue_name)
        (λ result. lift r (wrap_error "failed to unmarshal job" (c.decode_job result)))

  unfoldable pub get_job_cache : String → Op r JobCache
  get_job_cache id =
      bind r (r.get (status_key queue_name id))
        (λ text. lift r (wrap_error "failed to unmarshal job status" (c.decode_cache text)))

  -- `json.Marshal` and `Set` with 24 hours, as in each function that writes an entry
  unfoldable pub store_entry : String → String → JobCache → Op r Done
  store_entry text id entry =
      bind r (lift r (wrap_error text (c.encode_cache entry)))
        (λ json. r.set (status_key queue_name id) json cache_ttl)

  abbrev pub message_or_empty : Option String → String
  message_or_empty none = ""
  message_or_empty (some text) = text

  -- The chain and the user operation hash of a job are not carried over.
  unfoldable pub set_job_status : String → CacheJobStatus → Option String → ℕ → Op r Done
  unfolding store_entry
  set_job_status id status message now =
      let result : JobCache = record {
        job_id = id;
        chain_id = pos 0;
        user_op_hash = zero_hash;
        status = status;
        error = message_or_empty message;
        updated_at = now;
      } in
      store_entry "failed to marshal job result" id result

  unfoldable pub set_job_status_failed : String → String → ℕ → Op r Done
  unfolding set_job_status
  set_job_status_failed id message now = set_job_status id failed (some message) now

  unfoldable pub delete_job_cache : String → Op r Done
  delete_job_cache id = r.del (status_key queue_name id)

  unfoldable pub add_job_cache : JobCache → ℕ → Op r Done
  unfolding store_entry
  add_job_cache job now =
      store_entry "failed to marshal job cache" job.job_id (record job { updated_at = now })

  unfoldable pub read_entry : String → Op r JobCache
  read_entry id =
      bind r (wrap_op r "failed to get existing job cache" (r.get (status_key queue_name id)))
        (λ old. lift r (wrap_error "failed to unmarshal job cache" (c.decode_cache old)))

  unfoldable pub update_job_cache_user_op_hash : String → List ℕ → ℕ → Op r Done
  update_job_cache_user_op_hash id hash now = bind r (read_entry id) (λ job.
      store_entry "failed to marshal updated job cache" id
        (record job { user_op_hash = hash; updated_at = now }))

  unfoldable pub get_all_status_keys : Op r (List String)
  get_all_status_keys = r.keys (status_cache queue_name <> ":*")

  abbrev pub key_error : String → String → String
  key_error what key = (what <> " for key ") <> key

  -- One round of the loops below: `none` is a key that has gone.
  abbrev pub skip_nil : String → Reply String → Reply (Option String)
  skip_nil key (ok text) = ok (some text)
  skip_nil key (err redis_nil) = ok none
  skip_nil key (err e) = err (wrapped (key_error "failed to get job cache" key) e)

  read_text : String → Option String → Reply (Option JobCache)
  read_text key none = ok none
  read_text key (some text) = elim (c.decode_cache text) [
    | ok job ↦ ok (some job)
    | err e ↦ err (wrapped (key_error "failed to unmarshal job cache" key) e)
  ]

  unfoldable pub read_key : String → Op r (Option JobCache)
  unfolding read_text
  read_key key =
      bind r (λ s. (skip_nil key (r.get key s).0, (r.get key s).1))
        (λ text. lift r (read_text key text))

  abbrev pub keep_status : CacheJobStatus → Option JobCache → List JobCache → List JobCache
  keep_status status none found = found
  keep_status status (some job) found =
      if same_status job.status status then found ++ job ∷ [] else found

  unfoldable pub collect_by_status :
      CacheJobStatus → List String → List JobCache → Op r (List JobCache)
  collect_by_status status [] found = lift r (ok found)
  collect_by_status status (key ∷ keys) found =
      bind r (read_key key) (λ job. collect_by_status status keys (keep_status status job found))

  unfoldable pub get_job_caches_by_status : CacheJobStatus → Op r (List JobCache)
  get_job_caches_by_status status =
      bind r (wrap_op r "failed to get status keys" get_all_status_keys)
        (λ keys. collect_by_status status keys [])

  abbrev pub count_job : Option JobCache → Counts → Counts
  count_job none n = n
  count_job (some job) n = count_one job.status n

  unfoldable pub count_statuses : List String → Counts → Op r Counts
  count_statuses [] n = lift r (ok n)
  count_statuses (key ∷ keys) n =
      bind r (read_key key) (λ job. count_statuses keys (count_job job n))

  abbrev pub statistics : Counts → CacheStatistics
  statistics n = record {
    pending_count = n.of_pending;
    failed_count = n.of_failed;
    completed_count = n.of_completed;
    total_count = n.of_pending + n.of_failed + n.of_completed;
  }

  unfoldable pub get_cache_statistics : Op r CacheStatistics
  get_cache_statistics = bind r (wrap_op r "failed to get status keys" get_all_status_keys) (λ keys.
      bind r (count_statuses keys (record { of_pending = 0; of_failed = 0; of_completed = 0 }))
        (λ n. lift r (ok (statistics n))))
