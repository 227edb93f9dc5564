-- ===== src/Scheduler/Poll.antt =====
-- Steps 3 to 5 of a polling round, the round, and the execution of a job from the queue. `order` is the order in
-- which `range` visits the groups of jobs and of cache entries.
pub mod Selection
pub mod Race
use samanager_backend.Base.{
  ℕ, ◌≡◌, String, Bool, true, false, List, [], ◌∷◌, ◌++◌, Option, none, some, Error, error_text,
  Reply, ok, err, Done, if◌then◌else◌,
}
use samanager_backend.Base.Int.{ℤ}
use samanager_backend.Domain.Job.{EntityJob}
use samanager_backend.Domain.Schedule.{ExecutionConfig, is_time_to_execute, has_completed}
use samanager_backend.Jobs.Repo.{find_active_jobs}
use samanager_backend.Cache.Repo.{
  JobCache, pending, completed, zero_hash, get_job_cache, set_job_status, add_job_cache,
  enqueue_job, dequeue_job, get_cache_statistics, update_job_cache_user_op_hash,
}
use samanager_backend.Blockchain.{Chains}
use samanager_backend.Blockchain.Configs.{Configs, find_config, Group, get_execution_configs_batch}
use samanager_backend.Erc4337.Hash.{Hashing}
use samanager_backend.Execution.{Signer, execute_job}
use samanager_backend.Scheduler.World.{Services, World, on_cache, tick, set_failed, remove}
use samanager_backend.Scheduler.Receipts.{ByChain, check_receipts_for_pending_jobs}
use samanager_backend.Scheduler.Sync.{sync_cache_to_database}

abbrev pub is_ok {ℓ} : {A : Type ℓ} → Reply A → Bool
is_ok (ok a) = true
is_ok (err e) = false

-- The work that one job's configuration asks for.
pub data Choice : Type 0 where
  skip complete execute : Choice

unfoldable pub choose : Option ExecutionConfig → ℕ → Choice
choose none now = skip
choose (some config) now =
    if has_completed config
    then complete
    else if is_time_to_execute config now
    then execute
    else skip

module _ (p : Services) where
  -- Any error counts as "not in the cache".
  unfoldable pub is_job_in_cache : String → World p → Bool × World p
  is_job_in_cache id w =
      let (reply, w') = on_cache p (get_job_cache p.redis p.codec p.queue_name id) w in
      (is_ok reply, w')

  -- A completed job gets an entry, and is not executed.
  unfoldable pub apply_choice : Choice → EntityJob → World p → List EntityJob × World p
  apply_choice skip job w = ([], w)
  apply_choice execute job w = (job ∷ [], w)
  apply_choice complete job w = (
    [],
    (on_cache p (set_job_status p.redis p.codec p.queue_name job.id completed none (tick p w).0)
        (tick p w).1).1,
  )

  -- The clock is read for IsTimeToExecute also where the code has decided before it reads it.
  unfoldable pub select_job : Configs → EntityJob → Bool × World p → List EntityJob × World p
  select_job configs job (true, w) = ([], w)
  select_job configs job (false, w) =
      apply_choice (choose (find_config job.id configs) (tick p w).0) job (tick p w).1

  unfoldable pub filter_jobs : Configs → List EntityJob → World p → List EntityJob × World p
  filter_jobs configs [] w = ([], w)
  filter_jobs configs (job ∷ jobs) w =
      let (selected, w1) = select_job configs job (is_job_in_cache job.id w) in
      let (others, w2) = filter_jobs configs jobs w1 in (selected ++ others, w2)

  unfoldable pub filter_read :
      List EntityJob → Reply Configs → World p → Reply (List EntityJob) × World p
  filter_read jobs (err e) w = (err e, w)
  filter_read jobs (ok configs) w =
      let (selected, w') = filter_jobs configs jobs w in (ok selected, w')

  unfoldable pub fetch_execution_configs_and_filter_jobs :
      (List Group → List Group) → List EntityJob → World p → Reply (List EntityJob) × World p
  unfolding filter_read
  fetch_execution_configs_and_filter_jobs order jobs w =
      let (reply, chains) = get_execution_configs_batch p.network order jobs w.chains in
      filter_read jobs reply (record w { chains = chains })

  unfoldable pub enqueue_added : Reply Done → EntityJob → World p → World p
  enqueue_added (err e) job w = w
  enqueue_added (ok _) job w =
      let (reply, w') = on_cache p (enqueue_job p.redis p.codec p.queue_name job) w in
      if is_ok reply then w' else remove p job.id w'

  unfoldable pub add_and_enqueue : EntityJob → World p → World p
  unfolding enqueue_added
  add_and_enqueue job w =
      let entry : JobCache = record {
        job_id = job.id;
        chain_id = job.chain_id;
        user_op_hash = zero_hash;
        status = pending;
        error = "";
        updated_at = 0;
      } in
      let (reply, w') =
        on_cache p (add_job_cache p.redis p.codec p.queue_name entry (tick p w).0) (tick p w).1 in
      enqueue_added reply job w'

  unfoldable pub enqueue_jobs : List EntityJob → World p → World p
  enqueue_jobs [] w = w
  enqueue_jobs (job ∷ jobs) w = enqueue_jobs jobs (add_and_enqueue job w)

  unfoldable pub enqueue_fetched : Reply (List EntityJob) × World p → World p
  enqueue_fetched (err e, w) = w
  enqueue_fetched (ok jobs, w) = enqueue_jobs jobs w

  unfoldable pub poll_active :
      (List Group → List Group) → Reply (List EntityJob) → World p → World p
  unfolding enqueue_fetched
  poll_active order (err e) w = w
  poll_active order (ok []) w = w
  poll_active order (ok (job ∷ jobs)) w =
      enqueue_fetched (fetch_execution_configs_and_filter_jobs order (job ∷ jobs) w)

  unfoldable pub poll_job_logic :
      (ByChain → ByChain) → (List Group → List Group) → World p → World p
  unfolding poll_active
  poll_job_logic chain_order order w =
      let w1 = sync_cache_to_database p (check_receipts_for_pending_jobs p chain_order w) in
      let (_, w2) = on_cache p (get_cache_statistics p.redis p.codec p.queue_name) w1 in
      let (reply, table) = find_active_jobs p.database p.texts w2.table in
      poll_active order reply (record w2 { table = table })

  module _ (h : Hashing) (k : Signer) where
    unfoldable pub record_outcome : EntityJob → Reply (List ℕ) → World p → World p
    record_outcome job (err e) w = set_failed p job.id (error_text e) w
    record_outcome job (ok hash) w =
        (on_cache p
          (update_job_cache_user_op_hash p.redis p.codec p.queue_name job.id hash (tick p w).0)
          (tick p w).1).1

    -- `none`: the process has ended in a panic.
    unfoldable pub execute_job_logic : EntityJob → World p → Option (World p)
    unfolding record_outcome
    execute_job_logic job w = elim (execute_job p.network h k job w.chains) [
      | none ↦ none
      | some (reply, chains) ↦ some (record_outcome job reply (record w { chains = chains }))
    ]

    unfoldable pub execute_dequeued : Reply EntityJob → World p → Option (World p)
    execute_dequeued (err e) w = some w
    execute_dequeued (ok job) w = execute_job_logic job w

    -- One round of the loop that takes jobs from the queue, which waits a second for one.
    unfoldable pub process_job : World p → Option (World p)
    unfolding execute_dequeued
    process_job w =
        let (reply, w') = on_cache p (dequeue_job p.redis p.codec p.queue_name 1) w in
        execute_dequeued reply w'
