-- ===== src/Scheduler/Poll/Selection.antt =====
-- Which jobs a round executes, and what becomes of an executed job.
use samanager_backend.Base.{
  ℕ, ◌≡◌, refl, ◌↔◌, inl, inr, String, Bool, true, false, List, [], ◌∷◌, ◌++◌, Option, none, some,
  ok, err, Bool-cases, Option-cases, if◌then◌else◌, All, error_text,
}
use samanager_backend.Domain.Job.{EntityJob}
use samanager_backend.Domain.Schedule.{ExecutionConfig, is_time_to_execute, has_completed}
use samanager_backend.Blockchain.Configs.{Configs, find_config}
use samanager_backend.Erc4337.Hash.{Hashing}
use samanager_backend.Execution.{Signer, execute_job}
use samanager_backend.Base.{Error, str_eq}
use samanager_backend.Base.Int.{pos}
use samanager_backend.Blockchain.{Chains}
use samanager_backend.Cache.Redis.{IsLawful}
use samanager_backend.Cache.Repo.{
  IsFaithful, JobCache, failed, zero_hash, get_job_cache, set_job_status_failed,
}
use samanager_backend.Cache.Laws.{cached, cached-set_job_status}
use samanager_backend.Scheduler.World.{set_failed}
use samanager_backend.Scheduler.Poll.{record_outcome}
use samanager_backend.Scheduler.World.{Services, World, tick}
use samanager_backend.Scheduler.Poll.{
  Choice, skip, complete, execute, choose, apply_choice, select_job, filter_jobs, is_job_in_cache,
  execute_job_logic,
}

All-append {ℓ κ} :
    {A : Type ℓ} (P : A → Type κ) (xs ys : List A) → All P xs → All P ys → All P (xs ++ ys)
All-append P [] ys h k = k
All-append P (x ∷ xs) ys h k = (h.0, All-append P xs ys h.1 k)

choose-execute :
    (o : Option ExecutionConfig) (now : ℕ)
    → choose o now ≡ execute
    → (config : ExecutionConfig) × (o ≡ some config)
      × (has_completed config ≡ false)
      × (is_time_to_execute config now ≡ true)
unfolding choose
choose-execute none now h = cc
choose-execute (some config) now h = elim (Bool-cases (has_completed config)) [
  | inl e ↦ cc (rw (e, choose) at h)
  | inr e ↦ elim (Bool-cases (is_time_to_execute config now)) [
    | inl f ↦ (config, refl, e, f)
    | inr f ↦ cc (rw (e, f, choose) at h)
  ]
]

module _ (p : Services) where
  -- The world in which the loop over the jobs comes to a job.
  pub data Visits (configs : Configs)
      : List EntityJob → World p → EntityJob → World p → Type 0 where
    first :
        {job : EntityJob} {jobs : List EntityJob} {w : World p}
        → Visits configs (job ∷ jobs) w job w
    later :
        {job j : EntityJob} {jobs : List EntityJob} {w v : World p}
        → Visits configs jobs (select_job p configs job (is_job_in_cache p job.id w)).1 j v
        → Visits configs (job ∷ jobs) w j v

  -- When the loop came to the job, the job was not in the cache, it had a configuration with executions left, and was
  -- due at the time that the clock showed then.
  pub record IsDue (configs : Configs) (jobs : List EntityJob) (w : World p) (job : EntityJob)
      : Type 0 where
    pub seen : World p
    pub visits : Visits configs jobs w job seen
    pub not_cached : (is_job_in_cache p job.id seen).0 ≡ false
    pub config : ExecutionConfig
    pub found : find_config job.id configs ≡ some config
    pub left : has_completed config ≡ false
    pub due : is_time_to_execute config (tick p (is_job_in_cache p job.id seen).1).0 ≡ true

  later-IsDue :
      (configs : Configs) (x : EntityJob) (xs jobs : List EntityJob) (w : World p)
      → All (IsDue configs xs (select_job p configs x (is_job_in_cache p x.id w)).1) jobs
      → All (IsDue configs (x ∷ xs) w) jobs
  later-IsDue configs x xs [] w all = tt
  later-IsDue configs x xs (job ∷ jobs) w (d, all) = (
    record {
      seen = d.seen;
      visits = later d.visits;
      not_cached = d.not_cached;
      config = d.config;
      found = d.found;
      left = d.left;
      due = d.due;
    },
    later-IsDue configs x xs jobs w all,
  )

  apply_choice-All :
      (P : EntityJob → Type 0) (c : Choice) (job : EntityJob) (w : World p)
      → (c ≡ execute → P job)
      → All P (apply_choice p c job w).0
  unfolding apply_choice
  apply_choice-All P skip job w h = tt
  apply_choice-All P complete job w h = tt
  apply_choice-All P execute job w h = (h refl, tt)

  choose-IsDue :
      (configs : Configs) (job : EntityJob) (jobs : List EntityJob) (w : World p)
      → (is_job_in_cache p job.id w).0 ≡ false
      → choose (find_config job.id configs) (tick p (is_job_in_cache p job.id w).1).0 ≡ execute
      → IsDue configs (job ∷ jobs) w job
  choose-IsDue configs job jobs w missing h =
      let (config, found, left, due) =
        choose-execute (find_config job.id configs) (tick p (is_job_in_cache p job.id w).1).0 h in
      record {
        seen = w;
        visits = first;
        not_cached = missing;
        config = config;
        found = found;
        left = left;
        due = due;
      }

  select_job-All :
      (P : EntityJob → Type 0) (configs : Configs) (job : EntityJob) (in_cache : Bool × World p)
      → (in_cache.0 ≡ false
          → choose (find_config job.id configs) (tick p in_cache.1).0 ≡ execute
          → P job)
      → All P (select_job p configs job in_cache).0
  unfolding select_job
  select_job-All P configs job (true, w) h = tt
  select_job-All P configs job (false, w) h =
      apply_choice-All P (choose (find_config job.id configs) (tick p w).0) job (tick p w).1
        (h refl)

  -- A job that a round selects for execution is one that its loop has come to; then the job was not in the cache, had a
  -- configuration with executions left, and was due at the time that the clock showed.
  pub filter_jobs-All :
      (configs : Configs) (jobs : List EntityJob) (w : World p)
      → All (IsDue configs jobs w) (filter_jobs p configs jobs w).0
  unfolding filter_jobs
  filter_jobs-All configs [] w = tt
  filter_jobs-All configs (job ∷ jobs) w =
      All-append (IsDue configs (job ∷ jobs) w)
        (select_job p configs job (is_job_in_cache p job.id w)).0 _
        (select_job-All (IsDue configs (job ∷ jobs) w) configs job (is_job_in_cache p job.id w)
          (choose-IsDue configs job jobs w))
        (later-IsDue configs job jobs _ w
          (filter_jobs-All configs jobs (select_job p configs job (is_job_in_cache p job.id w)).1))

  select_none :
      (configs : Configs) (job : EntityJob) (in_cache : Bool × World p)
      → in_cache.0 ≡ true
      → (select_job p configs job in_cache).0 ≡ []
  unfolding select_job
  select_none configs job (true, w) h = refl
  select_none configs job (false, w) h = cc

  -- A job whose entry can be read from the cache is passed over, whatever its status is.
  pub select_job-cached :
      (configs : Configs) (job : EntityJob) (w : World p) (entry : JobCache)
      → (get_job_cache p.redis p.codec p.queue_name job.id w.cache).0 ≡ ok entry
      → (select_job p configs job (is_job_in_cache p job.id w)).0 ≡ []
  unfolding is_job_in_cache
  select_job-cached configs job w entry h =
      select_none configs job (is_job_in_cache p job.id w) (rw (h, is_job_in_cache) refl)

  module _ (h : Hashing) (k : Signer) (lawful : IsLawful p.redis)
      (faithful : IsFaithful p.codec) where
    abbrev entry_of : World p → String → Option JobCache
    entry_of w id = cached p.redis lawful p.codec faithful p.queue_name w.cache id

    -- When a job's execution ends in an error, and the cache can be written, the job's entry is failed with the
    -- text of that error, and no other entry has changed.
    pub execute_job_logic-failed :
        (job : EntityJob) (w : World p) (e : Error) (chains : Chains p.network)
        → execute_job p.network h k job w.chains ≡ some (err e, chains)
        → (set_job_status_failed p.redis p.codec p.queue_name job.id
            (error_text e)
            (p.network.clock chains.net).0
            w.cache).0
          ≡ ok tt
        → (w' : World p) × (execute_job_logic p h k job w ≡ some w')
          × ((id : String)
              → entry_of w' id ≡ (
                  if str_eq job.id id
                  then some (record {
                    job_id = job.id;
                    chain_id = pos 0;
                    user_op_hash = zero_hash;
                    status = failed;
                    error = error_text e;
                    updated_at = (p.network.clock chains.net).0;
                  })
                  else entry_of w id))
    unfolding execute_job_logic record_outcome set_failed set_job_status_failed
    execute_job_logic-failed job w e chains run done = (
      set_failed p job.id (error_text e) (record w { chains = chains }),
      rw (run, execute_job_logic) refl,
      λ id.
          cached-set_job_status p.redis lawful p.codec faithful p.queue_name job.id failed
            (some (error_text e)) (p.network.clock chains.net).0 w.cache id done,
    )

    -- The process ends in a panic exactly when the execution of the job does.
    pub execute_job_logic_panics :
        (job : EntityJob) (w : World p)
        → (execute_job_logic p h k job w ≡ none) ↔ (execute_job p.network h k job w.chains ≡ none)
    unfolding execute_job_logic
    execute_job_logic_panics job w = elim (Option-cases (execute_job p.network h k job w.chains)) [
      | inl e ↦ ((λ _. e), (λ _. rw (e, execute_job_logic) refl))
      | inr (r, e) ↦ ((λ gone. cc (rw (e, execute_job_logic) at gone)), (λ gone. cc))
    ]
