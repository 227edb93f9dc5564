-- ===== src/Demo/Loops.antt =====
-- cmd/scheduler/main.go, lines 50 to 103 and 161 to 192, and main: NewJobScheduler, Start, Stop, and the goroutines
-- pollJobs and executeJobs. Each has a program counter and a step function; a step is one command to Redis at most, so
-- that the commands of the two loops come in any order. `now` is what the clock shows at a step.
pub mod Left
pub mod Shutdown
use samanager_backend.Base.{
  ℕ, ◌+◌, String, ◌<>◌, Bool, true, false, List, [], ◌∷◌, Option, none, some, Reply, ok, err, Done,
  if◌then◌else◌,
}
use samanager_backend.Cache.Redis.{Redis}
use samanager_backend.Demo.{
  Job, status_pending, status_of, Json, is_stale, simulate_job, get_jobs_to_check, read_result,
  should_skip_job, push_job, store_result,
}

-- `selecting` is at the ticker, `checking` at the head of the loop over the jobs, `listing` at the start of
-- updateJobStatuses and `clearing` at the head of its loop; `ended` has called wg.Done.
pub data Poller : Type 0 where
  idle selecting listing ended : Poller
  checking : List Job → Poller
  pushing marking : Job → List Job → Poller
  clearing : List String → Poller
  deleting : String → List String → Poller

-- `crashed` ends the process.
pub data Executor : Type 0 where
  idle looking popping ended crashed : Executor
  got : Reply String → Executor
  running : Job → Executor
  storing : Job → Bool → String → Executor

-- What a goroutine adds to `js.wg`.
abbrev pub poller_weight : Poller → ℕ
poller_weight Poller.idle = 0
poller_weight Poller.ended = 0
poller_weight selecting = 1
poller_weight listing = 1
poller_weight (checking jobs) = 1
poller_weight (pushing job jobs) = 1
poller_weight (marking job jobs) = 1
poller_weight (clearing keys) = 1
poller_weight (deleting key keys) = 1

abbrev pub executor_weight : Executor → ℕ
executor_weight Executor.idle = 0
executor_weight Executor.ended = 0
executor_weight Executor.crashed = 1
executor_weight looking = 1
executor_weight popping = 1
executor_weight (got reply) = 1
executor_weight (running job) = 1
executor_weight (storing job success message) = 1

-- `select` at the ticker: `tick` is the choice of the tick, which it may take also where the context is done.
unfoldable pub select_tick : ℕ → Bool → Bool → Poller
select_tick now tick cancelled =
    if tick then checking (get_jobs_to_check now) else if cancelled then Poller.ended else selecting

abbrev pub after_skip : Job → List Job → Bool → Poller
after_skip job jobs true = checking jobs
after_skip job jobs false = pushing job jobs

abbrev pub after_push : Job → List Job → Reply Done → Poller
after_push job jobs (err e) = checking jobs
after_push job jobs (ok _) = marking job jobs

abbrev pub after_keys : Reply (List String) → Poller
after_keys (err e) = selecting
after_keys (ok keys) = clearing keys

abbrev pub after_read : String → List String → Bool → Poller
after_read key keys true = deleting key keys
after_read key keys false = clearing keys

abbrev pub after_unmarshal : Reply Job → Executor
after_unmarshal (err e) = looking
after_unmarshal (ok job) = running job

abbrev pub after_run : Job → Option (Bool × String) → Executor
after_run job none = Executor.crashed
after_run job (some (success, message)) = storing job success message

module _ (r : Redis) (j : Json) (queue_name : String) where
  unfoldable pub poller_step : ℕ → Bool → Bool → Poller → r.State → Poller × r.State
  poller_step now tick cancelled Poller.idle s = (Poller.idle, s)
  poller_step now tick cancelled selecting s = (select_tick now tick cancelled, s)
  poller_step now tick cancelled (checking []) s = (listing, s)
  poller_step now tick cancelled (checking (job ∷ jobs)) s =
      let (skip, s') = should_skip_job r j queue_name job.id s in (after_skip job jobs skip, s')
  poller_step now tick cancelled (pushing job jobs) s =
      let (reply, s') = push_job r j queue_name job s in (after_push job jobs reply, s')
  poller_step now tick cancelled (marking job jobs) s = (
    checking jobs,
    (store_result r j queue_name job.id status_pending "Job enqueued for execution" now s).1,
  )
  poller_step now tick cancelled listing s =
      let (reply, s') = r.keys ((queue_name <> ":status") <> ":*") s in (after_keys reply, s')
  poller_step now tick cancelled (clearing []) s = (selecting, s)
  poller_step now tick cancelled (clearing (key ∷ keys)) s =
      let (reply, s') = r.get key s in
      (after_read key keys (is_stale now (read_result r j queue_name reply)), s')
  poller_step now tick cancelled (deleting key keys) s = (clearing keys, (r.del key s).1)
  poller_step now tick cancelled Poller.ended s = (Poller.ended, s)

  -- An error of BRPop or of the JSON text leads back to the head of the loop, where the context is looked at.
  unfoldable pub executor_step : ℕ → Bool → Executor → r.State → Executor × r.State
  executor_step now cancelled Executor.idle s = (Executor.idle, s)
  executor_step now cancelled looking s = (if cancelled then Executor.ended else popping, s)
  executor_step now cancelled popping s =
      let (reply, s') = r.brpop 1 queue_name s in (got reply, s')
  executor_step now cancelled (got (err e)) s = (looking, s)
  executor_step now cancelled (got (ok text)) s = (after_unmarshal (j.unmarshal_job text), s)
  executor_step now cancelled (running job) s = (after_run job (simulate_job now job), s)
  executor_step now cancelled (storing job success message) s =
      (looking, (store_result r j queue_name job.id (status_of success) message now s).1)
  executor_step now cancelled Executor.ended s = (Executor.ended, s)
  executor_step now cancelled Executor.crashed s = (Executor.crashed, s)

  pub record Loops : Type 0 where
    pub redis : r.State
    -- whether `js.ctx` is done
    pub cancelled : Bool
    pub poller : Poller
    pub executor : Executor

  abbrev pub new_job_scheduler : r.State → Loops
  new_job_scheduler s = record {
    redis = s;
    cancelled = false;
    poller = Poller.idle;
    executor = Executor.idle;
  }

  abbrev pub start : Loops → Loops
  start l = record l { poller = selecting; executor = looking }

  -- main, up to its two minutes of sleep, after which it calls Stop
  abbrev pub launched : r.State → Loops
  launched s = start (new_job_scheduler s)

  -- `js.cancel()`, of Stop
  abbrev pub cancel : Loops → Loops
  cancel l = record l { cancelled = true }

  -- `js.wg`; Stop waits until it is 0, then closes its connection.
  unfoldable pub wg_count : Loops → ℕ
  wg_count l = poller_weight l.poller + executor_weight l.executor

  unfoldable pub poll_step : ℕ → Bool → Loops → Loops
  poll_step now tick l =
      let (poller, s) = poller_step now tick l.cancelled l.poller l.redis in
      record l { poller = poller; redis = s }

  unfoldable pub execute_step : ℕ → Loops → Loops
  execute_step now l =
      let (executor, s) = executor_step now l.cancelled l.executor l.redis in
      record l { executor = executor; redis = s }

  -- `others`: the server's other clients, and keys that expire.
  pub data Turn : Loops → Loops → Type 0 where
    poller_turn : (now : ℕ) (tick : Bool) (l : Loops) → Turn l (poll_step now tick l)
    executor_turn : (now : ℕ) (l : Loops) → Turn l (execute_step now l)
    cancelling : (l : Loops) → Turn l (cancel l)
    others : (l : Loops) (s : r.State) → Turn l (record l { redis = s })

  pub data Runs (l : Loops) : Loops → Type 0 where
    here : Runs l l
    next : {m n : Loops} → Runs l m → Turn m n → Runs l n
