-- ===== src/Scheduler/Steps/Safety.antt =====
-- What holds in every state that the scheduler and the requests can reach.
use samanager_backend.Base.{
  ◌⊎◌, ◌≡◌, ◌≢◌, refl, ◌∙◌, sym, ap, ℕ, String, Bool, List, [], ◌∷◌, map, none, some, ok, inl, inr,
  All,
}
use samanager_backend.Base.Errors.{>>=-eq-ok}
use samanager_backend.Base.Int.{ℤ}
use samanager_backend.Erc4337.Hash.{Hashing}
use samanager_backend.Execution.{Signer}
use samanager_backend.Domain.Job.{DbJob, EntityJob, Texts, queuing}
use samanager_backend.Jobs.Database.{Database, IsLawful}
use samanager_backend.Jobs.Repo.{find_active_jobs, to_entity_jobs}
use samanager_backend.Jobs.Laws.{to_entity_jobs-All}
use samanager_backend.Blockchain.{rpc_url, find_pool}
use samanager_backend.Blockchain.Kept.{
  nothing_done as same_chains, get_client-IsKept, get_client_locked-IsKept,
  get_bundler_client-IsKept, get_bundler_client_locked-IsKept, close-IsKept,
}
use samanager_backend.Scheduler.World.{Services, World}
use samanager_backend.Scheduler.Kept.{Settled, IsKept, nothing_done, in_turn, only_chains, beside}
use samanager_backend.Scheduler.Kept.Polling.{read_table, poll_job_logic-IsKept}
use samanager_backend.Scheduler.Kept.Processing.{process_job-IsKept, execute_job_logic-IsKept}
use samanager_backend.Http.Jobs.Laws.{register_job-row}
use samanager_backend.Http.Jobs.Listing.{get_job_list_lem}
use samanager_backend.Scheduler.Steps.{
  Step, polled, processed, executed, registered, listed, called_client, called_client_locked,
  called_bundler, called_bundler_locked, closed, read_active, wrote_status, outside, Reach, here,
  next,
}
use samanager_backend.Cache.Repo.{CacheJobStatus, pending, failed, completed, unknown}
use samanager_backend.Scheduler.Sync.{convert_cache_status_to_db_status, sync_message}
use samanager_backend.Scheduler.Kept.Sync.{written-IsKept}

-- No job of the list has the id.
abbrev pub IsAbsent : String → List EntityJob → Type 0
IsAbsent id jobs = All (λ (j : EntityJob). j.id ≢ id) jobs

same_ids-IsAbsent :
    (id : String) (rows : List DbJob) (jobs : List EntityJob)
    → map (λ (j : EntityJob). j.id) jobs ≡ map (λ (r : DbJob). r.id) rows
    → All (λ (r : DbJob). r.id ≢ id) rows
    → IsAbsent id jobs
same_ids-IsAbsent id rows [] e all = tt
same_ids-IsAbsent id [] (j ∷ js) e all = cc
same_ids-IsAbsent id (r ∷ rs) (j ∷ js) e (other, all) =
    let own : j.id ≡ r.id = cc in
    let rest : map (λ (j : EntityJob). j.id) js ≡ map (λ (r : DbJob). r.id) rs = cc in
    (λ same. other (sym own ∙ same), same_ids-IsAbsent id rs js rest all)

module _ (d : Database) (lawful : IsLawful d) (t : Texts) where
  queuing_rows :
      (s : d.State) (id : String) (rows : List DbJob)
      → Settled (lawful.row s id)
      → All (λ (r : DbJob). r.status ≡ queuing) rows
      → All
          (λ (r : DbJob).
            lawful.row s r.id ≡ some (record { status = r.status; err_msg = r.err_msg }))
          rows
      → All (λ (r : DbJob). r.id ≢ id) rows
  queuing_rows s id [] settled waits there = tt
  queuing_rows s id (r ∷ rs) (row, e, ended) (wait, waits) (here_it_is, there) = (
    λ same.
        let found : some row ≡ some (record { status = r.status; err_msg = r.err_msg }) =
          sym e ∙ ap (lawful.row s) (sym same) ∙ here_it_is in
        let own : row.status ≡ r.status = cc in ended (own ∙ wait),
    queuing_rows s id rs (row, e, ended) waits there,
  )

  find_active_jobs-IsAbsent :
      (s : d.State) (id : String) (jobs : List EntityJob)
      → Settled (lawful.row s id)
      → (find_active_jobs d t s).0 ≡ ok jobs
      → IsAbsent id jobs
  unfolding find_active_jobs
  find_active_jobs-IsAbsent s id jobs settled e =
      let (rows, found, read) = >>=-eq-ok (d.find_with_status queuing s).0 (to_entity_jobs d t) e in
      let waits = lawful.find_with_status_ok queuing s rows found in
      let (same, ids) = to_entity_jobs-All d lawful t queuing rows jobs waits read in
      same_ids-IsAbsent id rows jobs ids
        (queuing_rows s id rows settled waits (lawful.find_with_status_listed queuing s rows found))

module _ (p : Services) (lawful : IsLawful p.database) (h : Hashing) (k : Signer)
    (is_hex_address : String → Bool) (format : ℕ → String) where
  converted_ends :
      (status : CacheJobStatus)
      → (status ≡ failed) ⊎ (status ≡ completed)
      → convert_cache_status_to_db_status status ≢ queuing
  unfolding convert_cache_status_to_db_status
  converted_ends failed ends same = cc
  converted_ends completed ends same = cc
  converted_ends pending (inl e) same = cc
  converted_ends pending (inr e) same = cc
  converted_ends (unknown text) (inl e) same = cc
  converted_ends (unknown text) (inr e) same = cc

  Step-IsKept : {w w' : World p} → Step p h k is_hex_address format w w' → IsKept p lawful w w'
  Step-IsKept (polled chain_order order w) = poll_job_logic-IsKept p lawful chain_order order w
  Step-IsKept (processed w w' e) = process_job-IsKept p lawful h k w w' e
  Step-IsKept (executed job w w' e) = execute_job_logic-IsKept p lawful h k job w w' e
  Step-IsKept (registered bound w) = record {
    chains = same_chains p.network w.chains;
    rows = λ id (row, e, ended).
        elim (register_job-row p.database p.texts is_hex_address format lawful bound w.table id) [
          | inl kept ↦ (row, kept ∙ e, ended)
          | inr absent ↦ cc
        ];
  }
  Step-IsKept (listed w) = record {
    chains = same_chains p.network w.chains;
    rows = λ id settled.
        rw ((get_job_list_lem p.database p.texts is_hex_address format lawful w.table).0 id)
          settled;
  }
  Step-IsKept (called_client id w) =
      only_chains p lawful w _ (get_client-IsKept p.network id w.chains)
  Step-IsKept (called_client_locked id w) =
      only_chains p lawful w _ (get_client_locked-IsKept p.network id w.chains)
  Step-IsKept (called_bundler id w) =
      only_chains p lawful w _ (get_bundler_client-IsKept p.network id w.chains)
  Step-IsKept (called_bundler_locked id w) =
      only_chains p lawful w _ (get_bundler_client_locked-IsKept p.network id w.chains)
  Step-IsKept (closed w) = only_chains p lawful w _ (close-IsKept p.network w.chains)
  Step-IsKept (read_active w) = read_table p lawful w
  Step-IsKept (wrote_status status job w ends) =
      written-IsKept p lawful job.job_id (convert_cache_status_to_db_status status)
        (sync_message status job) w (converted_ends status ends)
  Step-IsKept (outside cache net w) = beside p lawful w cache net

  Reach-IsKept : {w w' : World p} → Reach p h k is_hex_address format w w' → IsKept p lawful w w'
  Reach-IsKept here = nothing_done p lawful _
  Reach-IsKept (next r step) = in_turn p lawful _ _ _ (Reach-IsKept r) (Step-IsKept step)

  -- A job that has ended is over: whatever rounds, single calls of overlapping rounds, requests and changes from
  -- outside follow, its row stays completed or failed, and FindActiveJobs does not return it.
  pub find_active_jobs-ended :
      (w w' : World p) (id : String)
      → Reach p h k is_hex_address format w w'
      → Settled (lawful.row w.table id)
      → Settled (lawful.row w'.table id)
        × ((jobs : List EntityJob)
            → (find_active_jobs p.database p.texts w'.table).0 ≡ ok jobs
            → IsAbsent id jobs)
  find_active_jobs-ended w w' id r settled =
      let still = (Reach-IsKept r).rows id settled in
      (
        still,
        λ jobs e. find_active_jobs-IsAbsent p.database lawful p.texts w'.table id jobs still e,
      )

  -- In every state that is reached from one with empty pools, a chain that is not supported has a client in neither
  -- pool.
  pub Reach-pools :
      (w w' : World p) (id : ℤ)
      → Reach p h k is_hex_address format w w'
      → w.chains.client_pool ≡ []
      → w.chains.bundler_pool ≡ []
      → rpc_url w.chains.urls id ≡ none
      → (find_pool id w'.chains.client_pool ≡ none) × (find_pool id w'.chains.bundler_pool ≡ none)
  unfolding find_pool
  Reach-pools w w' id r no_clients no_bundlers unsupported =
      let kept = (Reach-IsKept r).chains in
      let consistent =
        kept.consistent
          (record { clients = λ i e. rw no_clients refl; bundlers = λ i e. rw no_bundlers refl }) in
      let unsupported' = ap (λ u. rpc_url u id) kept.urls ∙ unsupported in
      (consistent.clients id unsupported', consistent.bundlers id unsupported')
