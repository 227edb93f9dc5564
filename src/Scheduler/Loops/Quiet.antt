-- ===== src/Scheduler/Loops/Quiet.antt =====
-- The loops of src/service/scheduler.go before Start and after their end: neither is in the wait group.
use samanager_backend.Base.{ℕ, ◌≡◌, refl, String, Bool, List, arith}
use samanager_backend.Base.Int.{ℤ}
use samanager_backend.Erc4337.Hash.{Hashing}
use samanager_backend.Execution.{Signer}
use samanager_backend.Blockchain.Configs.{Group}
use samanager_backend.Scheduler.World.{Services, World}
use samanager_backend.Scheduler.Receipts.{ByChain}
use samanager_backend.Scheduler.Loops.{
  Poller, first, no_ticker, ticking, Processor, looking, dequeuing, got, poller_weight,
  processor_weight, poller_step, processor_step, poll_step, process_step, Loops, wg_count, Turn,
  poller_turn, processor_turn, cancelling, others,
}

module _ (p : Services) (h : Hashing) (k : Signer) where
  -- Both loops are outside the scheduler's wait group.
  pub record IsQuiet (l : Loops p h k) : Type 0 where
    pub poller : poller_weight l.poller ≡ 0
    pub processor : processor_weight l.processor ≡ 0

  module _ (interval : ℤ) (chain_order : ByChain → ByChain) (order : List Group → List Group)
      (tick : Bool) where
    pub poller_step-quiet :
        (cancelled : Bool) (x : Poller) (w : World p)
        → poller_weight x ≡ 0
        → (poller_weight (poller_step p interval chain_order order tick cancelled x w).0 ≡ 0)
          × ((poller_step p interval chain_order order tick cancelled x w).1 ≡ w)
    unfolding poller_step
    poller_step-quiet cancelled Poller.idle w z = (refl, refl)
    poller_step-quiet cancelled first w z = absurd (omega arith)
    poller_step-quiet cancelled no_ticker w z = absurd (omega arith)
    poller_step-quiet cancelled ticking w z = absurd (omega arith)
    poller_step-quiet cancelled Poller.ended w z = (refl, refl)
    poller_step-quiet cancelled Poller.crashed w z = absurd (omega arith)

  pub processor_step-quiet :
      (cancelled : Bool) (x : Processor) (w : World p)
      → processor_weight x ≡ 0
      → (processor_weight (processor_step p h k cancelled x w).0 ≡ 0)
        × ((processor_step p h k cancelled x w).1 ≡ w)
  unfolding processor_step
  processor_step-quiet cancelled Processor.idle w z = (refl, refl)
  processor_step-quiet cancelled looking w z = absurd (omega arith)
  processor_step-quiet cancelled dequeuing w z = absurd (omega arith)
  processor_step-quiet cancelled (got reply) w z = absurd (omega arith)
  processor_step-quiet cancelled Processor.ended w z = (refl, refl)
  processor_step-quiet cancelled Processor.crashed w z = absurd (omega arith)

  module _ (interval : ℤ) (is_hex_address : String → Bool) (format : ℕ → String) where
    pub Turn-IsQuiet :
        {l m : Loops p h k} → Turn p h k interval is_hex_address format l m → IsQuiet l → IsQuiet m
    unfolding poll_step process_step
    Turn-IsQuiet (poller_turn chain_order order tick l) q = record {
      poller =
          (poller_step-quiet interval chain_order order tick l.cancelled l.poller l.world
            q.poller).0;
      processor = q.processor;
    }
    Turn-IsQuiet (processor_turn l) q = record {
      poller = q.poller;
      processor = (processor_step-quiet l.cancelled l.processor l.world q.processor).0;
    }
    Turn-IsQuiet (cancelling l) q = record { poller = q.poller; processor = q.processor }
    Turn-IsQuiet (others l w step) q = record { poller = q.poller; processor = q.processor }

  pub wg_count-IsQuiet : (l : Loops p h k) → wg_count p h k l ≡ 0 → IsQuiet l
  unfolding wg_count
  wg_count-IsQuiet l z = record { poller = omega (arith, z); processor = omega (arith, z) }
