-- ===== src/Demo/Loops/Left.antt =====
-- cmd/scheduler/main.go: how many steps each loop has left before it ends, once its context is done.
use samanager_backend.Base.{
  ℕ, suc, ◌+◌, ◌*◌, ◌≤◌, ◌≡◌, ◌⊎◌, refl, String, ◌<>◌, Bool, true, false, List, [], ◌∷◌, length,
  Option, none, some, Reply, Done, ok, err, inl, inr, arith,
}
use samanager_backend.Cache.Redis.{Redis}
use samanager_backend.Demo.{
  Job, Json, get_jobs_to_check, should_skip_job, push_job, is_stale, simulate_job, read_result,
}
use samanager_backend.Demo.Loops.{
  Poller, selecting, checking, pushing, marking, listing, clearing, deleting, Executor, looking,
  popping, got, running, storing, select_tick, after_skip, after_push, after_keys, after_read,
  after_unmarshal, after_run, poller_step, executor_step, poller_weight, executor_weight,
}

-- How many steps the executor has left before it ends, at most.
abbrev pub executor_left : Executor → ℕ
executor_left Executor.idle = 0
executor_left Executor.ended = 0
executor_left Executor.crashed = 0
executor_left looking = 1
executor_left (storing job success message) = 2
executor_left (running job) = 3
executor_left (got reply) = 4
executor_left popping = 5

-- Those of the poller, if it takes no tick and never lists more than `most` keys.
abbrev pub poller_left : ℕ → Poller → ℕ
poller_left most Poller.idle = 0
poller_left most Poller.ended = 0
poller_left most selecting = 1
poller_left most (clearing keys) = 2 + 2 * length keys
poller_left most (deleting key keys) = 3 + 2 * length keys
poller_left most listing = 3 + 2 * most
poller_left most (checking jobs) = 4 + 2 * most + 3 * length jobs
poller_left most (marking job jobs) = 5 + 2 * most + 3 * length jobs
poller_left most (pushing job jobs) = 6 + 2 * most + 3 * length jobs

-- The steps from a tick on: there are three jobs.
abbrev pub round_length : ℕ → ℕ
round_length most = 13 + 2 * most

after_unmarshal-left : (reply : Reply Job) → executor_left (after_unmarshal reply) ≤ 3
after_unmarshal-left (err e) = omega arith
after_unmarshal-left (ok job) = omega arith

after_run-left : (job : Job) (o : Option (Bool × String)) → executor_left (after_run job o) ≤ 2
after_run-left job none = omega arith
after_run-left job (some (success, message)) = omega arith

after_skip-left :
    (most : ℕ) (job : Job) (jobs : List Job) (skip : Bool)
    → poller_left most (after_skip job jobs skip) ≤ 6 + 2 * most + 3 * length jobs
after_skip-left most job jobs true = omega arith
after_skip-left most job jobs false = omega arith

after_push-left :
    (most : ℕ) (job : Job) (jobs : List Job) (reply : Reply Done)
    → poller_left most (after_push job jobs reply) ≤ 5 + 2 * most + 3 * length jobs
after_push-left most job jobs (err e) = omega arith
after_push-left most job jobs (ok done) = omega arith

after_read-left :
    (most : ℕ) (key : String) (keys : List String) (stale : Bool)
    → poller_left most (after_read key keys stale) ≤ 3 + 2 * length keys
after_read-left most key keys true = omega arith
after_read-left most key keys false = omega arith

after_keys-left :
    (most : ℕ) (reply : Reply (List String))
    → ((keys : List String) → reply ≡ ok keys → length keys ≤ most)
    → poller_left most (after_keys reply) ≤ 2 + 2 * most
after_keys-left most (err e) few = omega arith
after_keys-left most (ok keys) few = omega (arith, few keys refl)

pub poller_left-zero : (most : ℕ) (x : Poller) → poller_left most x ≤ 0 → poller_weight x ≡ 0
poller_left-zero most Poller.idle h = refl
poller_left-zero most Poller.ended h = refl
poller_left-zero most selecting h = absurd (omega arith)
poller_left-zero most listing h = absurd (omega arith)
poller_left-zero most (checking jobs) h = absurd (omega arith)
poller_left-zero most (pushing job jobs) h = absurd (omega arith)
poller_left-zero most (marking job jobs) h = absurd (omega arith)
poller_left-zero most (clearing keys) h = absurd (omega arith)
poller_left-zero most (deleting key keys) h = absurd (omega arith)

pub executor_left-zero :
    (x : Executor) → executor_left x ≤ 0 → (x ≡ Executor.crashed) ⊎ (executor_weight x ≡ 0)
executor_left-zero Executor.idle h = inr refl
executor_left-zero Executor.ended h = inr refl
executor_left-zero Executor.crashed h = inl refl
executor_left-zero looking h = absurd (omega arith)
executor_left-zero popping h = absurd (omega arith)
executor_left-zero (got reply) h = absurd (omega arith)
executor_left-zero (running job) h = absurd (omega arith)
executor_left-zero (storing job success message) h = absurd (omega arith)

pub executor_left-le : (x : Executor) → executor_left x ≤ 5
executor_left-le Executor.idle = omega arith
executor_left-le Executor.ended = omega arith
executor_left-le Executor.crashed = omega arith
executor_left-le looking = omega arith
executor_left-le popping = omega arith
executor_left-le (got reply) = omega arith
executor_left-le (running job) = omega arith
executor_left-le (storing job success message) = omega arith

module _ (r : Redis) (j : Json) (queue_name : String) where
  -- No answer to Keys has more keys.
  abbrev pub ListsAtMost : ℕ → Type 0
  ListsAtMost most =
      (s : r.State) (keys : List String)
      → (r.keys ((queue_name <> ":status") <> ":*") s).0 ≡ ok keys
      → length keys ≤ most

  pub executor_step-left :
      (now : ℕ) (executor : Executor) (s : r.State) (n : ℕ)
      → executor_left executor ≤ suc n
      → executor_left (executor_step r j queue_name now true executor s).0 ≤ n
  unfolding executor_step
  executor_step-left now Executor.idle s n few = omega arith
  executor_step-left now Executor.ended s n few = omega arith
  executor_step-left now Executor.crashed s n few = omega arith
  executor_step-left now looking s n few = omega arith
  executor_step-left now popping s n few = omega arith
  executor_step-left now (got (err e)) s n few = omega arith
  executor_step-left now (got (ok text)) s n few =
      omega (arith, after_unmarshal-left (j.unmarshal_job text))
  executor_step-left now (running job) s n few =
      omega (arith, after_run-left job (simulate_job now job))
  executor_step-left now (storing job success message) s n few = omega arith

  module _ (most : ℕ) (lists : ListsAtMost most) where
    -- A tick that is taken starts a round, of bounded length.
    pub poller_step-left :
        (now : ℕ) (tick : Bool) (poller : Poller) (s : r.State) (n : ℕ)
        → poller_left most poller ≤ suc n
        → (tick ≡ true → 1 ≤ poller_left most poller → round_length most ≤ n)
        → poller_left most (poller_step r j queue_name now tick true poller s).0 ≤ n
    unfolding poller_step select_tick get_jobs_to_check
    poller_step-left now tick Poller.idle s n few room = omega arith
    poller_step-left now true selecting s n few room = omega (arith, room refl (omega arith))
    poller_step-left now false selecting s n few room = omega arith
    poller_step-left now tick (checking []) s n few room = omega arith
    poller_step-left now tick (checking (job ∷ jobs)) s n few room =
        omega (arith, after_skip-left most job jobs (should_skip_job r j queue_name job.id s).0)
    poller_step-left now tick (pushing job jobs) s n few room =
        omega (arith, after_push-left most job jobs (push_job r j queue_name job s).0)
    poller_step-left now tick (marking job jobs) s n few room = omega arith
    poller_step-left now tick listing s n few room =
        omega
          (arith, after_keys-left most (r.keys ((queue_name <> ":status") <> ":*") s).0 (lists s))
    poller_step-left now tick (clearing []) s n few room = omega arith
    poller_step-left now tick (clearing (key ∷ keys)) s n few room = omega (
      arith,
      after_read-left most key keys (is_stale now (read_result r j queue_name (r.get key s).0)),
    )
    poller_step-left now tick (deleting key keys) s n few room = omega arith
    poller_step-left now tick Poller.ended s n few room = omega arith
