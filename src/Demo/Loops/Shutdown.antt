-- ===== src/Demo/Loops/Shutdown.antt =====
-- cmd/scheduler/main.go, Stop: how the loops end once their context is done.
use samanager_backend.Base.{
  ℕ, suc, ◌+◌, ◌-◌, ◌≤◌, ◌≡◌, ◌⊎◌, refl, String, true, false, inl, inr, arith,
}
use samanager_backend.Cache.Redis.{Redis}
use samanager_backend.Demo.{Json}
use samanager_backend.Demo.Loops.{
  Executor, Loops, wg_count, poll_step, execute_step, Runs, here, next, poller_turn, executor_turn,
  cancelling, others,
}
use samanager_backend.Demo.Loops.Left.{
  executor_left, poller_left, round_length, poller_left-zero, executor_left-zero, executor_left-le,
  executor_step-left, poller_step-left, ListsAtMost,
}

module _ (r : Redis) (j : Json) (queue_name : String) (most : ℕ)
    (lists : ListsAtMost r j queue_name most) where
  -- The turns of a run that each goroutine took, and those that the poller may take before it has ended.
  abbrev pub executor_turns : {l m : Loops r j queue_name} → Runs r j queue_name l m → ℕ
  executor_turns here = 0
  executor_turns (next run (poller_turn now tick l)) = executor_turns run
  executor_turns (next run (executor_turn now l)) = suc (executor_turns run)
  executor_turns (next run (cancelling l)) = executor_turns run
  executor_turns (next run (others l s)) = executor_turns run

  abbrev pub poller_turns : {l m : Loops r j queue_name} → Runs r j queue_name l m → ℕ
  poller_turns here = 0
  poller_turns (next run (poller_turn now tick l)) = suc (poller_turns run)
  poller_turns (next run (executor_turn now l)) = poller_turns run
  poller_turns (next run (cancelling l)) = poller_turns run
  poller_turns (next run (others l s)) = poller_turns run

  abbrev pub poller_allowance : {l m : Loops r j queue_name} → Runs r j queue_name l m → ℕ
  poller_allowance {l} here = poller_left most l.poller
  poller_allowance (next run (poller_turn now true l)) = poller_allowance run + round_length most
  poller_allowance (next run (poller_turn now false l)) = poller_allowance run
  poller_allowance (next run (executor_turn now l)) = poller_allowance run
  poller_allowance (next run (cancelling l)) = poller_allowance run
  poller_allowance (next run (others l s)) = poller_allowance run

  record Left (m : Loops r j queue_name) (executed allowed polled : ℕ) : Type 0 where
    done : m.cancelled ≡ true
    executor : executor_left m.executor ≤ 5 - executed
    poller : poller_left most m.poller ≤ allowed - polled

  Runs-Left :
      {l m : Loops r j queue_name} (run : Runs r j queue_name l m)
      → l.cancelled ≡ true
      → Left m (executor_turns run) (poller_allowance run) (poller_turns run)
  unfolding poll_step execute_step
  Runs-Left {l} here done = record {
    done = done;
    executor = executor_left-le l.executor;
    poller = omega arith;
  }
  Runs-Left (next run (poller_turn now true m)) done =
      let left = Runs-Left run done in
      record {
        done = left.done;
        executor = left.executor;
        poller = rw left.done (
            poller_step-left r j queue_name most lists now true m.poller m.redis
              (poller_allowance run + round_length most - suc (poller_turns run))
              (omega (arith, left.poller)) (λ _ some_left. omega (arith, left.poller, some_left)));
      }
  Runs-Left (next run (poller_turn now false m)) done =
      let left = Runs-Left run done in
      record {
        done = left.done;
        executor = left.executor;
        poller = rw left.done (
            poller_step-left r j queue_name most lists now false m.poller m.redis
              (poller_allowance run - suc (poller_turns run)) (omega (arith, left.poller))
              (λ e _. absurd (ground (arith, e))));
      }
  Runs-Left (next run (executor_turn now m)) done =
      let left = Runs-Left run done in
      record {
        done = left.done;
        executor = rw left.done (
            executor_step-left r j queue_name now m.executor m.redis (5 - suc (executor_turns run))
              (omega (arith, left.executor)));
        poller = left.poller;
      }
  Runs-Left (next run (cancelling m)) done =
      let left = Runs-Left run done in
      record { done = refl; executor = left.executor; poller = left.poller }
  Runs-Left (next run (others m s)) done =
      let left = Runs-Left run done in
      record { done = left.done; executor = left.executor; poller = left.poller }

  -- Once the context is done, five turns of the executor, and as many of the poller as its round has left, with a round's
  -- length more for each tick that it still takes, are enough, whatever happens between them: then Stop has nothing
  -- left to wait for, or a job has ended the process.
  pub Stop-waits :
      {l m : Loops r j queue_name} (run : Runs r j queue_name l m)
      → l.cancelled ≡ true
      → 5 ≤ executor_turns run
      → poller_allowance run ≤ poller_turns run
      → (m.executor ≡ Executor.crashed) ⊎ (wg_count r j queue_name m ≡ 0)
  unfolding wg_count
  Stop-waits {m = m} run done executed polled =
      let left = Runs-Left run done in
      let poller = poller_left-zero most m.poller (omega (arith, left.poller)) in
      elim (executor_left-zero m.executor (omega (arith, left.executor))) [
        | inl dead ↦ inl dead
        | inr executor ↦ inr (omega (arith, poller, executor))
      ]
