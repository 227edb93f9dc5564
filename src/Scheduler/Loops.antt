-- ===== src/Scheduler/Loops.antt =====
-- src/service/scheduler.go, lines 34 to 123: NewJobScheduler, Start and Stop, and the goroutines pollJobs and
-- processJobs. Each goroutine has a program counter and a step function; a round of the poller is one step, and what
-- else happens to the world meanwhile, the single calls of an overlapping round included, are steps of the others.
pub mod Shutdown
pub mod Refinement
pub mod Interval
pub mod Quiet
use samanager_backend.Base.{
  ℕ, ◌+◌, ◌≡◌, String, Bool, true, false, List, Option, none, some, Error, redis_nil, external,
  failure, wrapped, Reply, ok, err, if◌then◌else◌, ◌&&◌,
}
use samanager_backend.Base.Int.{ℤ}
use samanager_backend.Domain.Job.{EntityJob}
use samanager_backend.Cache.Repo.{dequeue_job}
use samanager_backend.Erc4337.Hash.{Hashing}
use samanager_backend.Execution.{Signer}
use samanager_backend.Blockchain.Configs.{Group}
use samanager_backend.Scheduler.World.{Services, World, on_cache}
use samanager_backend.Scheduler.Receipts.{ByChain}
use samanager_backend.Scheduler.Poll.{poll_job_logic, execute_job_logic}
use samanager_backend.Scheduler.Ticker.{makes_ticker}
use samanager_backend.Scheduler.Steps.{Step}

-- `idle` is before Start; `ended` has called wg.Done; a panic, `crashed`, ends the process.
pub data Poller : Type 0 where
  idle first no_ticker ticking ended crashed : Poller

pub data Processor : Type 0 where
  idle looking dequeuing ended crashed : Processor
  got : Reply EntityJob → Processor

-- What a goroutine adds to `js.wg`.
abbrev pub poller_weight : Poller → ℕ
poller_weight Poller.idle = 0
poller_weight Poller.ended = 0
poller_weight first = 1
poller_weight no_ticker = 1
poller_weight ticking = 1
poller_weight Poller.crashed = 1

abbrev pub processor_weight : Processor → ℕ
processor_weight Processor.idle = 0
processor_weight Processor.ended = 0
processor_weight looking = 1
processor_weight dequeuing = 1
processor_weight (got reply) = 1
processor_weight Processor.crashed = 1

-- `select` at the ticker: where the context is done and a tick is there too, it takes either, so `tick` is the choice.
-- With neither it waits.
unfoldable pub select_tick : Bool → Bool → Poller
select_tick tick cancelled = if tick then ticking else if cancelled then Poller.ended else ticking

-- `if err == redis.Nil { continue }; if js.ctx.Err() != nil { return }; continue`
unfoldable pub after_error : Bool → Error → Processor
after_error cancelled redis_nil = looking
after_error cancelled (external text) = if cancelled then Processor.ended else looking
after_error cancelled (failure text) = if cancelled then Processor.ended else looking
after_error cancelled (wrapped text e) = if cancelled then Processor.ended else looking

module _ (p : Services) where
  -- The orders in which a round visits its maps, and the interval of the ticker.
  module _ (interval : ℤ) (chain_order : ByChain → ByChain) (order : List Group → List Group) where
    unfoldable pub poller_step : Bool → Bool → Poller → World p → Poller × World p
    unfolding select_tick
    poller_step tick cancelled Poller.idle w = (Poller.idle, w)
    poller_step tick cancelled first w = (no_ticker, poll_job_logic p chain_order order w)
    poller_step tick cancelled no_ticker w =
        (if makes_ticker interval then ticking else Poller.crashed, w)
    poller_step tick cancelled ticking w =
        (select_tick tick cancelled, if tick then poll_job_logic p chain_order order w else w)
    poller_step tick cancelled Poller.ended w = (Poller.ended, w)
    poller_step tick cancelled Poller.crashed w = (Poller.crashed, w)

  module _ (h : Hashing) (k : Signer) where
    after_execution : World p → Option (World p) → Processor × World p
    after_execution w none = (Processor.crashed, w)
    after_execution w (some w') = (looking, w')

    -- `select` with a default: the context is looked at first.
    unfoldable pub processor_step : Bool → Processor → World p → Processor × World p
    unfolding after_execution after_error
    processor_step cancelled Processor.idle w = (Processor.idle, w)
    processor_step cancelled looking w = (if cancelled then Processor.ended else dequeuing, w)
    processor_step cancelled dequeuing w =
        let (reply, w') = on_cache p (dequeue_job p.redis p.codec p.queue_name 1) w in
        (got reply, w')
    processor_step cancelled (got (err e)) w = (after_error cancelled e, w)
    processor_step cancelled (got (ok job)) w = after_execution w (execute_job_logic p h k job w)
    processor_step cancelled Processor.ended w = (Processor.ended, w)
    processor_step cancelled Processor.crashed w = (Processor.crashed, w)

    pub record Loops : Type 0 where
      pub world : World p
      -- whether `js.ctx` is done
      pub cancelled : Bool
      pub poller : Poller
      pub processor : Processor

    -- NewJobScheduler, on a context that is not done
    abbrev pub new_job_scheduler : World p → Loops
    new_job_scheduler w = record {
      world = w;
      cancelled = false;
      poller = Poller.idle;
      processor = Processor.idle;
    }

    abbrev pub start : Loops → Loops
    start l = record l { poller = first; processor = looking }

    -- `js.cancel()`, of Stop, or the end of the context that the scheduler was made with
    abbrev pub cancel : Loops → Loops
    cancel l = record l { cancelled = true }

    -- `js.wg`; Stop returns when it is 0.
    unfoldable pub wg_count : Loops → ℕ
    wg_count l = poller_weight l.poller + processor_weight l.processor

    unfoldable pub poll_step :
        ℤ → (ByChain → ByChain) → (List Group → List Group) → Bool → Loops → Loops
    poll_step interval chain_order order tick l =
        let (poller, world) =
          poller_step interval chain_order order tick l.cancelled l.poller l.world in
        record l { poller = poller; world = world }

    unfoldable pub process_step : Loops → Loops
    process_step l =
        let (processor, world) = processor_step l.cancelled l.processor l.world in
        record l { processor = processor; world = world }

    module _ (interval : ℤ) (is_hex_address : String → Bool) (format : ℕ → String) where
      pub data Turn : Loops → Loops → Type 0 where
        poller_turn :
            (chain_order : ByChain → ByChain) (order : List Group → List Group) (tick : Bool)
            (l : Loops)
            → Turn l (poll_step interval chain_order order tick l)
        processor_turn : (l : Loops) → Turn l (process_step l)
        cancelling : (l : Loops) → Turn l (cancel l)
        others :
            (l : Loops) (w : World p)
            → Step p h k is_hex_address format l.world w
            → Turn l (record l { world = w })

      pub data Runs (l : Loops) : Loops → Type 0 where
        here : Runs l l
        next : {m n : Loops} → Runs l m → Turn m n → Runs l n
