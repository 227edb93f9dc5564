-- ===== src/Cache/Laws.antt =====
-- The job cache as a map from job ids to entries, and what each operation of the repository does to it.
use text.Mathlib.TextLemmas.{append_cancel_left}
use samanager_backend.Base.{
  ℕ, ◌≡◌, refl, ap, ◌∙◌, inl, inr, String, ◌<>◌, false, List, Option, none, some, ok, err, str_eq,
  eq_iff, if◌then◌else◌, arith, Bool-cases, Reply-cases,
}
use samanager_backend.Base.Int.{pos}
use samanager_backend.Cache.Redis.{Redis, IsLawful}
use samanager_backend.Cache.Repo.{
  CacheJobStatus, JobCache, zero_hash, Codec, IsFaithful, status_key, store_entry, read_entry,
  get_job_cache, set_job_status, message_or_empty, delete_job_cache, add_job_cache,
  update_job_cache_user_op_hash, cache_ttl,
}

abbrev pub decoded : Codec → Option String → Option JobCache
decoded c none = none
decoded c (some text) = elim (c.decode_cache text) [ ok job ↦ some job | err _ ↦ none ]

same_key : (q a b : String) → str_eq (status_key q a) (status_key q b) ≡ str_eq a b
unfolding status_key
same_key q a b = ground (
  arith,
  eq_iff (status_key q a) (status_key q b),
  eq_iff a b,
  append_cancel_left ((q <> ":status") <> ":") a b,
)

module _ (r : Redis) (lawful : IsLawful r) (c : Codec) (faithful : IsFaithful c) (q : String) where
  -- The entry that the cache has for a job.
  unfoldable pub cached : r.State → String → Option JobCache
  cached s id = decoded c (lawful.held s (status_key q id))

  -- A write changes no other job's entry, whether it succeeds or not.
  pub store_entry-other :
      (text id : String) (entry : JobCache) (s : r.State) (j : String)
      → str_eq id j ≡ false
      → cached (store_entry r c q text id entry s).1 j ≡ cached s j
  unfolding cached store_entry
  store_entry-other text id entry s j ne = elim (Reply-cases (c.encode_cache entry)) [
    | inl (json, e) ↦
        rw (e, store_entry)
          (ap (decoded c) (
            lawful.set_other (status_key q id) json cache_ttl s (status_key q j)
              (same_key q id j ∙ ne)))
    | inr (e', e) ↦ rw (e, store_entry) refl
  ]

  store_entry_self :
      (text id : String) (entry : JobCache) (s : r.State)
      → (store_entry r c q text id entry s).0 ≡ ok tt
      → cached (store_entry r c q text id entry s).1 id ≡ some entry
  unfolding cached store_entry
  store_entry_self text id entry s done = elim (Reply-cases (c.encode_cache entry)) [
    | inl (json, e) ↦
        rw
          (
            e,
            store_entry,
            lawful.set_ok (status_key q id) json cache_ttl s (rw (e, store_entry) at done),
          )
          (rw (faithful.decode_cache-encode_cache entry json e, decoded) refl)
    | inr (e', e) ↦ cc (rw (e, store_entry) at done)
  ]

  -- A write that succeeds sets the job's entry, and leaves every other.
  pub store_entry-cached :
      (text id : String) (entry : JobCache) (s : r.State) (j : String)
      → (store_entry r c q text id entry s).0 ≡ ok tt
      → cached (store_entry r c q text id entry s).1 j
        ≡ (if str_eq id j then some entry else cached s j)
  store_entry-cached text id entry s j done = elim (Bool-cases (str_eq id j)) [
    | inl same ↦ rw same (rw (← (eq_iff id j).0 same) (store_entry_self text id entry s done))
    | inr differ ↦ rw differ (store_entry-other text id entry s j differ)
  ]

  -- AddJobCache, when it succeeds, caches the given entry with a new time stamp under its job's id, and
  -- changes no other job's entry.
  pub cached-add_job_cache :
      (job : JobCache) (now : ℕ) (s : r.State) (j : String)
      → (add_job_cache r c q job now s).0 ≡ ok tt
      → cached (add_job_cache r c q job now s).1 j
        ≡ (if str_eq job.job_id j then some (record job { updated_at = now }) else cached s j)
  unfolding add_job_cache
  cached-add_job_cache job now s j done = store_entry-cached _ _ _ s j done

  -- SetJobStatus, when it succeeds, leaves an entry with the status and the message; the chain id and
  -- the user operation hash that the job had are gone. No other job's entry changes.
  pub cached-set_job_status :
      (id : String) (status : CacheJobStatus) (message : Option String) (now : ℕ) (s : r.State)
      (j : String)
      → (set_job_status r c q id status message now s).0 ≡ ok tt
      → cached (set_job_status r c q id status message now s).1 j ≡ (
          if str_eq id j
          then some (record {
            job_id = id;
            chain_id = pos 0;
            user_op_hash = zero_hash;
            status = status;
            error = message_or_empty r c q message;
            updated_at = now;
          })
          else cached s j)
  unfolding set_job_status
  cached-set_job_status id status message now s j done = store_entry-cached _ _ _ s j done

  -- DeleteJobCache, when it succeeds, removes the job's entry and no other.
  pub cached-delete_job_cache :
      (id : String) (s : r.State) (j : String)
      → (delete_job_cache r c q id s).0 ≡ ok tt
      → cached (delete_job_cache r c q id s).1 j ≡ (if str_eq id j then none else cached s j)
  unfolding delete_job_cache cached
  cached-delete_job_cache id s j done = elim (Bool-cases (str_eq id j)) [
    | inl same ↦ rw (same, ← (eq_iff id j).0 same, lawful.del_ok (status_key q id) s done) refl
    | inr differ ↦ rw differ (
        ap (decoded c)
          (lawful.del_other (status_key q id) s (status_key q j) (same_key q id j ∙ differ)))
  ]

  -- GetJobCache reads: it answers with the cached entry, and changes none.
  pub get_job_cache-cached :
      (id : String) (s : r.State) (job : JobCache)
      → (get_job_cache r c q id s).0 ≡ ok job
      → cached s id ≡ some job
  unfolding get_job_cache cached
  get_job_cache-cached id s job e = elim (Reply-cases (r.get (status_key q id) s).0) [
    | inl (text, f) ↦ ground (arith, lawful.get_ok (status_key q id) text s f)
    | inr (e', f) ↦ cc (rw (f, get_job_cache) at e)
  ]

  pub cached-get_job_cache :
      (id : String) (s : r.State) (j : String) → cached (get_job_cache r c q id s).1 j ≡ cached s j
  unfolding get_job_cache cached
  cached-get_job_cache id s j = elim (Reply-cases (r.get (status_key q id) s).0) [
    | inl (text, f) ↦
        rw (f, get_job_cache)
          (ap (decoded c) (lawful.get_held (status_key q id) (status_key q j) s))
    | inr (e, f) ↦
        rw (f, get_job_cache)
          (ap (decoded c) (lawful.get_held (status_key q id) (status_key q j) s))
  ]

  read_entry-cached :
      (id : String) (s : r.State) (job : JobCache)
      → (read_entry r c q id s).0 ≡ ok job
      → cached s id ≡ some job
  unfolding read_entry cached
  read_entry-cached id s job e = elim (Reply-cases (r.get (status_key q id) s).0) [
    | inl (text, f) ↦ ground (arith, lawful.get_ok (status_key q id) text s f)
    | inr (e', f) ↦ cc (rw (f, read_entry) at e)
  ]

  cached-read_entry :
      (id : String) (s : r.State) (j : String) → cached (read_entry r c q id s).1 j ≡ cached s j
  unfolding read_entry cached
  cached-read_entry id s j = elim (Reply-cases (r.get (status_key q id) s).0) [
    | inl (text, f) ↦
        rw (f, read_entry) (ap (decoded c) (lawful.get_held (status_key q id) (status_key q j) s))
    | inr (e, f) ↦
        rw (f, read_entry) (ap (decoded c) (lawful.get_held (status_key q id) (status_key q j) s))
  ]

  -- UpdateJobCacheUserOpHash, when it succeeds, has found an entry of the job; it replaces the hash and
  -- the time stamp in it, keeps the rest, chain id and status included, and changes no other entry.
  pub cached-update_job_cache_user_op_hash :
      (id : String) (hash : List ℕ) (now : ℕ) (s : r.State)
      → (update_job_cache_user_op_hash r c q id hash now s).0 ≡ ok tt
      → (old : JobCache) × (cached s id ≡ some old)
        × ((j : String)
            → cached (update_job_cache_user_op_hash r c q id hash now s).1 j ≡ (
                if str_eq id j
                then some (record old { user_op_hash = hash; updated_at = now })
                else cached s j))
  unfolding update_job_cache_user_op_hash
  cached-update_job_cache_user_op_hash id hash now s done =
      elim (Reply-cases (read_entry r c q id s).0) [
        | inl (old, f) ↦ (
          old,
          read_entry-cached id s old f,
          λ j.
              rw (f, update_job_cache_user_op_hash)
                (store_entry-cached _ id _ (read_entry r c q id s).1 j
                    (rw (f, update_job_cache_user_op_hash) at done)
                  ∙ rw (cached-read_entry id s j) refl),
        )
        | inr (e, f) ↦ cc (rw (f, update_job_cache_user_op_hash) at done)
      ]

  -- It changes nothing if the job has no entry.
  pub update_job_cache_user_op_hash-missing :
      (id : String) (hash : List ℕ) (now : ℕ) (s : r.State)
      → cached s id ≡ none
      → (j : String) → cached (update_job_cache_user_op_hash r c q id hash now s).1 j ≡ cached s j
  unfolding update_job_cache_user_op_hash
  update_job_cache_user_op_hash-missing id hash now s gone j =
      elim (Reply-cases (read_entry r c q id s).0) [
        | inl (old, f) ↦ cc (gone, read_entry-cached id s old f)
        | inr (e, f) ↦ rw (f, update_job_cache_user_op_hash) (cached-read_entry id s j)
      ]

  -- Removing an entry changes no other, whether it succeeds or not.
  pub delete_job_cache-other :
      (id : String) (s : r.State) (j : String)
      → str_eq id j ≡ false
      → cached (delete_job_cache r c q id s).1 j ≡ cached s j
  unfolding delete_job_cache cached
  delete_job_cache-other id s j ne =
      ap (decoded c) (lawful.del_other (status_key q id) s (status_key q j) (same_key q id j ∙ ne))
