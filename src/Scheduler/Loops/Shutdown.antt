-- ===== src/Scheduler/Loops/Shutdown.antt =====
-- src/service/scheduler.go, Stop: how the loops end once their context is done.
use samanager_backend.Base.{
  ℕ, String, suc, ◌-◌, ◌≤◌, ◌≡◌, ◌⊎◌, refl, Bool, true, false, List, Error, redis_nil, external,
  failure, wrapped, Option, none, some, ok, err, inl, inr, arith,
}
use samanager_backend.Base.Int.{ℤ}
use samanager_backend.Erc4337.Hash.{Hashing}
use samanager_backend.Execution.{Signer}
use samanager_backend.Blockchain.Configs.{Group}
use samanager_backend.Scheduler.World.{Services, World}
use samanager_backend.Scheduler.Receipts.{ByChain}
use samanager_backend.Scheduler.Poll.{execute_job_logic}
use samanager_backend.Scheduler.Loops.{
  Poller, first, no_ticker, ticking, Processor, looking, dequeuing, got, select_tick, after_error,
  poller_step, processor_step, after_execution, poller_weight, processor_weight, wg_count, Loops,
  Runs, here, next, poller_turn, processor_turn, cancelling, others, poll_step, process_step,
}

-- How many steps the processor has left before it ends, at most.
abbrev processor_left : Processor → ℕ
processor_left Processor.idle = 0
processor_left Processor.ended = 0
processor_left Processor.crashed = 0
processor_left looking = 1
processor_left (got reply) = 2
processor_left dequeuing = 3

-- The steps of the poller that a tick cannot make more.
abbrev poller_left : Poller → ℕ
poller_left Poller.idle = 0
poller_left Poller.ended = 0
poller_left Poller.crashed = 0
poller_left ticking = 1
poller_left no_ticker = 2
poller_left first = 3

module _ (p : Services) (h : Hashing) (k : Signer) where
  after_error-left : (e : Error) → processor_left (after_error true e) ≤ 1
  unfolding after_error
  after_error-left redis_nil = omega arith
  after_error-left (external text) = omega arith
  after_error-left (failure text) = omega arith
  after_error-left (wrapped text e) = omega arith

  after_execution-left :
      (w : World p) (o : Option (World p)) → processor_left (after_execution p h k w o).0 ≤ 1
  unfolding after_execution
  after_execution-left w none = omega arith
  after_execution-left w (some w') = omega arith

  processor_step-left :
      (processor : Processor) (w : World p) (n : ℕ)
      → processor_left processor ≤ suc n
      → processor_left (processor_step p h k true processor w).0 ≤ n
  unfolding processor_step
  processor_step-left Processor.idle w n few = omega arith
  processor_step-left looking w n few = omega arith
  processor_step-left dequeuing w n few = omega arith
  processor_step-left (got (err e)) w n few = omega (arith, after_error-left e)
  processor_step-left (got (ok job)) w n few =
      omega (arith, after_execution-left w (execute_job_logic p h k job w))
  processor_step-left Processor.ended w n few = omega arith
  processor_step-left Processor.crashed w n few = omega arith

  module _ (interval : ℤ) (chain_order : ByChain → ByChain) (order : List Group → List Group) where
    poller_step-left :
        (poller : Poller) (w : World p) (n : ℕ)
        → poller_left poller ≤ suc n
        → poller_left (poller_step p interval chain_order order false true poller w).0 ≤ n
    unfolding poller_step select_tick
    poller_step-left Poller.idle w n few = omega arith
    poller_step-left first w n few = omega arith
    poller_step-left no_ticker w n few = ground arith
    poller_step-left ticking w n few = omega arith
    poller_step-left Poller.ended w n few = omega arith
    poller_step-left Poller.crashed w n few = omega arith

    poller_step-left_any :
        (tick : Bool) (poller : Poller) (w : World p) (n : ℕ)
        → poller_left poller ≤ n
        → poller_left (poller_step p interval chain_order order tick true poller w).0 ≤ n
    unfolding poller_step select_tick
    poller_step-left_any tick Poller.idle w n few = few
    poller_step-left_any tick first w n few = omega arith
    poller_step-left_any tick no_ticker w n few = ground arith
    poller_step-left_any true ticking w n few = few
    poller_step-left_any false ticking w n few = omega arith
    poller_step-left_any tick Poller.ended w n few = few
    poller_step-left_any tick Poller.crashed w n few = few

processor_left-le : (x : Processor) → processor_left x ≤ 3
processor_left-le Processor.idle = omega arith
processor_left-le Processor.ended = omega arith
processor_left-le Processor.crashed = omega arith
processor_left-le looking = omega arith
processor_left-le dequeuing = omega arith
processor_left-le (got reply) = omega arith

poller_left-le : (x : Poller) → poller_left x ≤ 3
poller_left-le Poller.idle = omega arith
poller_left-le first = omega arith
poller_left-le no_ticker = omega arith
poller_left-le ticking = omega arith
poller_left-le Poller.ended = omega arith
poller_left-le Poller.crashed = omega arith

-- A loop with no step left has crashed, or no longer counts in `js.wg`.
processor_left-zero :
    (x : Processor) → processor_left x ≤ 0 → (x ≡ Processor.crashed) ⊎ (processor_weight x ≡ 0)
processor_left-zero Processor.idle h = inr refl
processor_left-zero Processor.ended h = inr refl
processor_left-zero Processor.crashed h = inl refl
processor_left-zero looking h = absurd (omega arith)
processor_left-zero dequeuing h = absurd (omega arith)
processor_left-zero (got reply) h = absurd (omega arith)

poller_left-zero : (x : Poller) → poller_left x ≤ 0 → (x ≡ Poller.crashed) ⊎ (poller_weight x ≡ 0)
poller_left-zero Poller.idle h = inr refl
poller_left-zero Poller.ended h = inr refl
poller_left-zero Poller.crashed h = inl refl
poller_left-zero first h = absurd (omega arith)
poller_left-zero no_ticker h = absurd (omega arith)
poller_left-zero ticking h = absurd (omega arith)

module _ (p : Services) (h : Hashing) (k : Signer) (interval : ℤ) (is_hex_address : String → Bool)
    (format : ℕ → String) where
  -- The turns of a run that the processor took, and those that the poller took without a tick.
  abbrev pub processor_turns :
      {l m : Loops p h k} → Runs p h k interval is_hex_address format l m → ℕ
  processor_turns here = 0
  processor_turns (next r (poller_turn chain_order order tick l)) = processor_turns r
  processor_turns (next r (processor_turn l)) = suc (processor_turns r)
  processor_turns (next r (cancelling l)) = processor_turns r
  processor_turns (next r (others l w step)) = processor_turns r

  abbrev pub quiet_turns : {l m : Loops p h k} → Runs p h k interval is_hex_address format l m → ℕ
  quiet_turns here = 0
  quiet_turns (next r (poller_turn chain_order order true l)) = quiet_turns r
  quiet_turns (next r (poller_turn chain_order order false l)) = suc (quiet_turns r)
  quiet_turns (next r (processor_turn l)) = quiet_turns r
  quiet_turns (next r (cancelling l)) = quiet_turns r
  quiet_turns (next r (others l w step)) = quiet_turns r

  -- What is left of three steps each.
  record Left (m : Loops p h k) (processed quiet : ℕ) : Type 0 where
    done : m.cancelled ≡ true
    processor : processor_left m.processor ≤ 3 - processed
    poller : poller_left m.poller ≤ 3 - quiet

  at_first : (l : Loops p h k) → l.cancelled ≡ true → Left l 0 0
  at_first l done = record {
    done = done;
    processor = processor_left-le l.processor;
    poller = poller_left-le l.poller;
  }

  Runs-Left :
      {l m : Loops p h k} (r : Runs p h k interval is_hex_address format l m)
      → l.cancelled ≡ true
      → Left m (processor_turns r) (quiet_turns r)
  unfolding poll_step process_step
  Runs-Left {l} here done = at_first l done
  Runs-Left (next r (poller_turn chain_order order true m)) done =
      let left = Runs-Left r done in
      record {
        done = left.done;
        processor = left.processor;
        poller = rw left.done (
            poller_step-left_any p h k interval chain_order order true m.poller m.world _
              left.poller);
      }
  Runs-Left (next r (poller_turn chain_order order false m)) done =
      let left = Runs-Left r done in
      record {
        done = left.done;
        processor = left.processor;
        poller = rw left.done (
            poller_step-left p h k interval chain_order order m.poller m.world
              (3 - suc (quiet_turns r)) (omega (arith, left.poller)));
      }
  Runs-Left (next r (processor_turn m)) done =
      let left = Runs-Left r done in
      record {
        done = left.done;
        processor = rw left.done (
            processor_step-left p h k m.processor m.world (3 - suc (processor_turns r))
              (omega (arith, left.processor)));
        poller = left.poller;
      }
  Runs-Left (next r (cancelling m)) done =
      let left = Runs-Left r done in
      record { done = refl; processor = left.processor; poller = left.poller }
  Runs-Left (next r (others m w step)) done =
      let left = Runs-Left r done in
      record { done = left.done; processor = left.processor; poller = left.poller }

  -- Once the context of the scheduler is done, three turns of the loop that takes jobs from the queue, and three turns of
  -- the poller in which the select takes no tick, are enough, whatever happens between them: then a loop has
  -- panicked, or Stop has nothing left to wait for.
  pub Stop-returns :
      {l m : Loops p h k} (r : Runs p h k interval is_hex_address format l m)
      → l.cancelled ≡ true
      → 3 ≤ processor_turns r
      → 3 ≤ quiet_turns r
      → (m.poller ≡ Poller.crashed) ⊎ (m.processor ≡ Processor.crashed) ⊎ (wg_count p h k m ≡ 0)
  unfolding wg_count
  Stop-returns {m = m} r done processed quiet =
      let left = Runs-Left r done in
      elim (poller_left-zero m.poller (omega (arith, left.poller))) [
        | inl dead ↦ inl dead
        | inr polled ↦ elim (processor_left-zero m.processor (omega (arith, left.processor))) [
          | inl dead ↦ inr (inl dead)
          | inr taken ↦ inr (inr (omega (arith, polled, taken)))
        ]
      ]
