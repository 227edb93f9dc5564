-- ===== src/Scheduler/Kept/Polling.antt =====
-- What the rest of a polling round leaves as it was.
use samanager_backend.Base.{
  ◌≡◌, refl, true, false, Bool, List, [], ◌∷◌, Reply, ok, err, Done, Bool-cases, inl, inr,
}
use samanager_backend.Domain.Job.{EntityJob, queuing}
use samanager_backend.Jobs.Database.{IsLawful}
use samanager_backend.Jobs.Repo.{find_active_jobs}
use samanager_backend.Blockchain.Kept.{nothing_done as same_chains, only_net}
use samanager_backend.Blockchain.Configs.{Configs, Group, get_execution_configs_batch}
use samanager_backend.Blockchain.Configs.Kept.{get_execution_configs_batch-IsKept}
use samanager_backend.Cache.Repo.{
  JobCache, pending, zero_hash, add_job_cache, get_cache_statistics, enqueue_job,
}
use samanager_backend.Scheduler.World.{Services, World, on_cache, tick}
use samanager_backend.Scheduler.Receipts.{ByChain, check_receipts_for_pending_jobs}
use samanager_backend.Scheduler.Sync.{sync_cache_to_database}
use samanager_backend.Scheduler.Poll.{
  Choice, skip, complete, execute, is_ok, is_job_in_cache, apply_choice, select_job, filter_jobs,
  filter_read, fetch_execution_configs_and_filter_jobs, enqueue_added, add_and_enqueue,
  enqueue_jobs, enqueue_fetched, poll_active, poll_job_logic,
}
use samanager_backend.Scheduler.Kept.{
  IsKept, nothing_done, in_turn, beside, only_chains, remove-IsKept,
  check_receipts_for_pending_jobs-IsKept,
}
use samanager_backend.Scheduler.Kept.Sync.{sync_cache_to_database-IsKept}

module _ (p : Services) (lawful : IsLawful p.database) where
  -- A call that changes no more than the cache and the network.
  pub aside :
      (w w' : World p) (net : p.network.State)
      → w'.table ≡ w.table
      → w'.chains ≡ record w.chains { net = net }
      → IsKept p lawful w w'
  aside w w' net table chains = record {
    chains = rw chains (only_net p.network w.chains net);
    rows = λ id h. rw table h;
  }

  apply_choice-IsKept :
      (choice : Choice) (job : EntityJob) (w : World p)
      → IsKept p lawful w (apply_choice p choice job w).1
  unfolding apply_choice
  apply_choice-IsKept skip job w = nothing_done p lawful w
  apply_choice-IsKept execute job w = nothing_done p lawful w
  apply_choice-IsKept complete job w = aside w (apply_choice p complete job w).1 _ refl refl

  select_job-IsKept :
      (configs : Configs) (job : EntityJob) (cached : Bool) (w : World p)
      → IsKept p lawful w (select_job p configs job (cached, w)).1
  unfolding select_job
  select_job-IsKept configs job true w = nothing_done p lawful w
  select_job-IsKept configs job false w =
      in_turn p lawful w (tick p w).1 _ (aside w (tick p w).1 _ refl refl)
        (apply_choice-IsKept _ job _)

  filter_jobs-IsKept :
      (configs : Configs) (jobs : List EntityJob) (w : World p)
      → IsKept p lawful w (filter_jobs p configs jobs w).1
  unfolding filter_jobs is_job_in_cache
  filter_jobs-IsKept configs [] w = nothing_done p lawful w
  filter_jobs-IsKept configs (job ∷ jobs) w =
      let found = is_job_in_cache p job.id w in
      let kept =
        in_turn p lawful w found.1 _ (aside w found.1 w.chains.net refl refl)
          (select_job-IsKept configs job found.0 found.1) in
      in_turn p lawful w (select_job p configs job found).1 _ kept
        (filter_jobs-IsKept configs jobs _)

  filter_read-IsKept :
      (jobs : List EntityJob) (reply : Reply Configs) (w : World p)
      → IsKept p lawful w (filter_read p jobs reply w).1
  unfolding filter_read
  filter_read-IsKept jobs (err e) w = nothing_done p lawful w
  filter_read-IsKept jobs (ok configs) w = filter_jobs-IsKept configs jobs w

  fetch-IsKept :
      (order : List Group → List Group) (jobs : List EntityJob) (w : World p)
      → IsKept p lawful w (fetch_execution_configs_and_filter_jobs p order jobs w).1
  unfolding fetch_execution_configs_and_filter_jobs
  fetch-IsKept order jobs w =
      let read = get_execution_configs_batch p.network order jobs w.chains in
      in_turn p lawful w (record w { chains = read.1 }) _
        (only_chains p lawful w read.1
          (get_execution_configs_batch-IsKept p.network order jobs w.chains))
        (filter_read-IsKept jobs read.0 _)

  enqueue_added-IsKept :
      (reply : Reply Done) (job : EntityJob) (w : World p)
      → IsKept p lawful w (enqueue_added p reply job w)
  unfolding enqueue_added
  enqueue_added-IsKept (err e) job w = nothing_done p lawful w
  enqueue_added-IsKept (ok _) job w =
      let pushed = enqueue_job p.redis p.codec p.queue_name job w.cache in
      let kept = beside p lawful w pushed.1 w.chains.net in
      elim (Bool-cases (is_ok pushed.0)) [
        | inl e ↦ rw (e, enqueue_added) kept
        | inr e ↦
            rw (e, enqueue_added) (in_turn p lawful w _ _ kept (remove-IsKept p lawful job.id _))
      ]

  add_and_enqueue-IsKept :
      (job : EntityJob) (w : World p) → IsKept p lawful w (add_and_enqueue p job w)
  unfolding add_and_enqueue
  add_and_enqueue-IsKept job w =
      let entry : JobCache = record {
        job_id = job.id;
        chain_id = job.chain_id;
        user_op_hash = zero_hash;
        status = pending;
        error = "";
        updated_at = 0;
      } in
      let added =
        on_cache p (add_job_cache p.redis p.codec p.queue_name entry (tick p w).0) (tick p w).1 in
      in_turn p lawful w added.1 _ (aside w added.1 _ refl refl)
        (enqueue_added-IsKept added.0 job added.1)

  enqueue_jobs-IsKept :
      (jobs : List EntityJob) (w : World p) → IsKept p lawful w (enqueue_jobs p jobs w)
  unfolding enqueue_jobs
  enqueue_jobs-IsKept [] w = nothing_done p lawful w
  enqueue_jobs-IsKept (job ∷ jobs) w =
      in_turn p lawful w (add_and_enqueue p job w) _ (add_and_enqueue-IsKept job w)
        (enqueue_jobs-IsKept jobs _)

  enqueue_fetched-IsKept :
      (fetched : Reply (List EntityJob) × World p)
      → IsKept p lawful fetched.1 (enqueue_fetched p fetched)
  unfolding enqueue_fetched
  enqueue_fetched-IsKept (err e, w) = nothing_done p lawful w
  enqueue_fetched-IsKept (ok jobs, w) = enqueue_jobs-IsKept jobs w

  poll_active-IsKept :
      (order : List Group → List Group) (reply : Reply (List EntityJob)) (w : World p)
      → IsKept p lawful w (poll_active p order reply w)
  unfolding poll_active
  poll_active-IsKept order (err e) w = nothing_done p lawful w
  poll_active-IsKept order (ok []) w = nothing_done p lawful w
  poll_active-IsKept order (ok (job ∷ jobs)) w =
      let fetched = fetch_execution_configs_and_filter_jobs p order (job ∷ jobs) w in
      in_turn p lawful w fetched.1 _ (fetch-IsKept order (job ∷ jobs) w)
        (enqueue_fetched-IsKept fetched)

  pub read_table :
      (w : World p)
      → IsKept p lawful w (record w { table = (find_active_jobs p.database p.texts w.table).1 })
  unfolding find_active_jobs
  read_table w = record {
    chains = same_chains p.network w.chains;
    rows = λ id h. rw (lawful.find_with_status_row queuing w.table id) h;
  }

  pub poll_job_logic-IsKept :
      (chain_order : ByChain → ByChain) (order : List Group → List Group) (w : World p)
      → IsKept p lawful w (poll_job_logic p chain_order order w)
  unfolding poll_job_logic
  poll_job_logic-IsKept chain_order order w =
      let w0 = check_receipts_for_pending_jobs p chain_order w in
      let w1 = sync_cache_to_database p w0 in
      let counted = get_cache_statistics p.redis p.codec p.queue_name w1.cache in
      let w2 : World p = record w1 { cache = counted.1 } in
      let active = find_active_jobs p.database p.texts w2.table in
      in_turn p lawful w w0 _ (check_receipts_for_pending_jobs-IsKept p lawful chain_order w) (
        in_turn p lawful w0 w1 _ (sync_cache_to_database-IsKept p lawful w0) (
          in_turn p lawful w1 w2 _ (beside p lawful w1 counted.1 w1.chains.net) (
            in_turn p lawful w2 (record w2 { table = active.1 }) _ (read_table w2)
              (poll_active-IsKept order active.0 _))))
