-- ===== src/Tests/LoopRuns.antt =====
-- The scheduler's loops on the services in memory.
use samanager_backend.Base.{◌≡◌, ◌≢◌, ◌⊎◌, refl, true, false, List, str_eq, if◌then◌else◌, arith}
use samanager_backend.Base.Int.{ℤ, pos}
use samanager_backend.Blockchain.Configs.{Group}
use samanager_backend.Settings.Texts.{atoi}
use samanager_backend.Settings.Config.{Env, get_polling_interval}
use samanager_backend.Scheduler.Receipts.{ByChain}
use samanager_backend.Scheduler.Ticker.{is_positive}
use samanager_backend.Scheduler.Loops.{
  Poller, ticking, Processor, Loops, new_job_scheduler, start, cancel, wg_count, poll_step,
  process_step, poller_turn, processor_turn, Runs, here, next,
}
use samanager_backend.Scheduler.Loops.Shutdown.{Stop-returns}
use samanager_backend.Scheduler.Loops.Interval.{Runs-get_polling_interval}
use samanager_backend.Tests.Samples.{sent_entry}
use samanager_backend.Tests.ChainRuns.{hashing, signer}
use samanager_backend.Tests.SchedulerRuns.{services}
use samanager_backend.Tests.SafetyRuns.{world}
use samanager_backend.Tests.HttpRuns.{is_known, times}

abbrev State : Type 0
State = Loops (services sent_entry) hashing signer

abbrev same_chains : ByChain → ByChain
same_chains chains = chains

abbrev same_groups : List Group → List Group
same_groups groups = groups

abbrev polled : ℤ → State → State
polled interval l =
    poll_step (services sent_entry) hashing signer interval same_chains same_groups false l

abbrev processed : State → State
processed l = process_step (services sent_entry) hashing signer l

abbrev started : State
started =
    start (services sent_entry) hashing signer
      (new_job_scheduler (services sent_entry) hashing signer world)

abbrev stopped : State
stopped = cancel (services sent_entry) hashing signer started

abbrev drained : State
drained =
    processed (processed (processed (polled (pos 60) (polled (pos 60) (polled (pos 60) stopped)))))

drain : Runs (services sent_entry) hashing signer (pos 60) is_known times stopped drained
drain =
    next
      (next
        (next
          (next
            (next (next here (poller_turn same_chains same_groups false stopped))
              (poller_turn same_chains same_groups false (polled (pos 60) stopped)))
            (poller_turn same_chains same_groups false (polled (pos 60) (polled (pos 60) stopped))))
          (processor_turn (polled (pos 60) (polled (pos 60) (polled (pos 60) stopped)))))
        (processor_turn (processed (polled (pos 60) (polled (pos 60) (polled (pos 60) stopped))))))
      (processor_turn
        (processed (processed (polled (pos 60) (polled (pos 60) (polled (pos 60) stopped))))))

Stop-returns_example :
    (drained.poller ≡ Poller.crashed)
    ⊎ (drained.processor ≡ Processor.crashed)
    ⊎ (wg_count (services sent_entry) hashing signer drained ≡ 0)
unfolding drain
Stop-returns_example =
    Stop-returns (services sent_entry) hashing signer (pos 60) is_known times drain refl
      (omega arith) (omega arith)

abbrev never : Env
never key = if str_eq key "POLLING_INTERVAL" then "0" else "set"

abbrev twice : State
twice = polled (get_polling_interval never) (polled (get_polling_interval never) started)

two_turns :
    Runs
      (services sent_entry)
      hashing
      signer
      (get_polling_interval never)
      is_known
      times
      started
      twice
two_turns =
    next (next here (poller_turn same_chains same_groups false started))
      (poller_turn same_chains same_groups false (polled (get_polling_interval never) started))

Runs-get_polling_interval_example :
    (is_positive (pos 0) ≡ true → twice.poller ≢ Poller.crashed)
    × (is_positive (pos 0) ≡ false → (twice.poller ≢ ticking) × (twice.poller ≢ Poller.ended))
unfolding atoi
Runs-get_polling_interval_example =
    Runs-get_polling_interval never (pos 0) (services sent_entry) hashing signer is_known times
      world twice refl refl (omega arith) two_turns
