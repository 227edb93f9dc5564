-- ===== src/Cache/Refinement.antt =====
-- The job cache as a plain map: the writes of the repository, in any sequence, against writes to a map.
use samanager_backend.Base.{
  ℕ, ◌≡◌, refl, sym, ◌∙◌, String, List, [], ◌∷◌, Option, none, some, Reply, ok, err, Done, str_eq,
  if◌then◌else◌,
}
use samanager_backend.Base.Int.{pos}
use samanager_backend.Cache.Redis.{Redis, IsLawful}
use samanager_backend.Cache.Repo.{
  CacheJobStatus, JobCache, zero_hash, Codec, IsFaithful, get_job_cache, set_job_status,
  message_or_empty, delete_job_cache, add_job_cache, update_job_cache_user_op_hash,
}
use samanager_backend.Cache.Laws.{
  cached, cached-add_job_cache, cached-set_job_status, cached-delete_job_cache,
  get_job_cache-cached, cached-update_job_cache_user_op_hash,
}

-- A write, with the time at which it is made.
pub data Write : Type 0 where
  add : JobCache → ℕ → Write
  set : String → CacheJobStatus → Option String → ℕ → Write
  set_hash : String → List ℕ → ℕ → Write
  delete : String → Write

abbrev pub Entries : Type 0
Entries = String → Option JobCache

abbrev text_or_empty : Option String → String
text_or_empty none = ""
text_or_empty (some text) = text

abbrev pub with_hash : List ℕ → ℕ → Option JobCache → Option JobCache
with_hash hash now none = none
with_hash hash now (some job) = some (record job { user_op_hash = hash; updated_at = now })

abbrev pub put : String → Option JobCache → Entries → Entries
put id entry m j = if str_eq id j then entry else m j

-- What a write means.
unfoldable pub write_map : Write → Entries → Entries
write_map (add job now) m = put job.job_id (some (record job { updated_at = now })) m
write_map (set id status message now) m =
    put id
      (some (record {
        job_id = id;
        chain_id = pos 0;
        user_op_hash = zero_hash;
        status = status;
        error = text_or_empty message;
        updated_at = now;
      }))
      m
write_map (set_hash id hash now) m = put id (with_hash hash now (m id)) m
write_map (delete id) m = put id none m

unfoldable pub write_all_map : List Write → Entries → Entries
write_all_map [] m = m
write_all_map (w ∷ ws) m = write_all_map ws (write_map w m)

module _ (r : Redis) (c : Codec) (q : String) where
  unfoldable pub write : Write → r.State → Reply Done × r.State
  write (add job now) s = add_job_cache r c q job now s
  write (set id status message now) s = set_job_status r c q id status message now s
  write (set_hash id hash now) s = update_job_cache_user_op_hash r c q id hash now s
  write (delete id) s = delete_job_cache r c q id s

  unfoldable pub unless_failed :
      (r.State → Reply Done × r.State) → Reply Done × r.State → Reply Done × r.State
  unless_failed rest (err e, s) = (err e, s)
  unless_failed rest (ok _, s) = rest s

  -- The writes in a row, up to the first that fails.
  unfoldable pub write_all : List Write → r.State → Reply Done × r.State
  unfolding unless_failed
  write_all [] s = (ok tt, s)
  write_all (w ∷ ws) s = unless_failed (λ s'. write_all ws s') (write w s)

module _ (r : Redis) (lawful : IsLawful r) (c : Codec) (faithful : IsFaithful c) (q : String) where
  write_map-eq :
      (w : Write) (m m' : Entries)
      → ((j : String) → m j ≡ m' j)
      → (j : String) → write_map w m j ≡ write_map w m' j
  unfolding write_map
  write_map-eq (add job now) m m' e j = rw (e j) refl
  write_map-eq (set id status message now) m m' e j = rw (e j) refl
  write_map-eq (set_hash id hash now) m m' e j = rw (e j, e id) refl
  write_map-eq (delete id) m m' e j = rw (e j) refl

  write_all_map-eq :
      (ws : List Write) (m m' : Entries)
      → ((j : String) → m j ≡ m' j)
      → (j : String) → write_all_map ws m j ≡ write_all_map ws m' j
  unfolding write_all_map
  write_all_map-eq [] m m' e j = e j
  write_all_map-eq (w ∷ ws) m m' e j =
      write_all_map-eq ws (write_map w m) (write_map w m') (write_map-eq w m m' e) j

  message-eq : (message : Option String) → message_or_empty r c q message ≡ text_or_empty message
  message-eq none = refl
  message-eq (some text) = refl

  write-write_map :
      (w : Write) (s : r.State)
      → (write r c q w s).0 ≡ ok tt
      → (j : String)
      → cached r lawful c faithful q (write r c q w s).1 j
        ≡ write_map w (cached r lawful c faithful q s) j
  unfolding write write_map
  write-write_map (add job now) s done j =
      cached-add_job_cache r lawful c faithful q job now s j done
  write-write_map (set id status message now) s done j =
      rw (← message-eq message)
        (cached-set_job_status r lawful c faithful q id status message now s j done)
  write-write_map (set_hash id hash now) s done j =
      let (old, found, after) =
        cached-update_job_cache_user_op_hash r lawful c faithful q id hash now s done in
      rw found (after j)
  write-write_map (delete id) s done j = cached-delete_job_cache r lawful c faithful q id s j done

  unless_failed-ok :
      (rest : r.State → Reply Done × r.State) (p : Reply Done × r.State)
      → (unless_failed r c q rest p).0 ≡ ok tt
      → (p.0 ≡ ok tt) × (unless_failed r c q rest p ≡ rest p.1)
  unfolding unless_failed
  unless_failed-ok rest (err e, s) done = cc
  unless_failed-ok rest (ok tt, s) done = (refl, refl)

  write_all-write_all_map :
      (ws : List Write) (s : r.State)
      → (write_all r c q ws s).0 ≡ ok tt
      → (j : String)
      → cached r lawful c faithful q (write_all r c q ws s).1 j
        ≡ write_all_map ws (cached r lawful c faithful q s) j
  unfolding write_all write_all_map
  write_all-write_all_map [] s done j = refl
  write_all-write_all_map (w ∷ ws) s done j =
      let (first, same) = unless_failed-ok (λ s'. write_all r c q ws s') (write r c q w s) done in
      rw same (
        write_all-write_all_map ws (write r c q w s).1 (rw same at done) j
        ∙ write_all_map-eq ws _ _ (write-write_map w s first) j)

  -- The repository refines the map. After any sequence of AddJobCache, SetJobStatus, UpdateJobCacheUserOpHash and
  -- DeleteJobCache that all succeed, every job's entry is what the same writes make of a plain map, and an entry that
  -- GetJobCache then returns is the map's.
  pub write_all-refines :
      (ws : List Write) (s : r.State)
      → (write_all r c q ws s).0 ≡ ok tt
      → ((j : String)
          → cached r lawful c faithful q (write_all r c q ws s).1 j
            ≡ write_all_map ws (cached r lawful c faithful q s) j)
        × ((id : String) (job : JobCache)
            → (get_job_cache r c q id (write_all r c q ws s).1).0 ≡ ok job
            → write_all_map ws (cached r lawful c faithful q s) id ≡ some job)
  write_all-refines ws s done = (
    write_all-write_all_map ws s done,
    λ id job e.
        let found = get_job_cache-cached r lawful c faithful q id (write_all r c q ws s).1 job e in
        sym (write_all-write_all_map ws s done id) ∙ found,
  )
