-- ===== src/Scheduler/Loops/Refinement.antt =====
-- The loops of src/service/scheduler.go against the step relation of the scheduler's rounds.
use samanager_backend.Base.{
  ℕ, ◌≡◌, ◌⊎◌, refl, String, Bool, true, false, List, ok, err, inl, inr, Option-cases,
}
use samanager_backend.Base.Int.{ℤ}
use samanager_backend.Domain.Job.{EntityJob}
use samanager_backend.Erc4337.Hash.{Hashing}
use samanager_backend.Execution.{Signer}
use samanager_backend.Blockchain.Configs.{Group}
use samanager_backend.Scheduler.World.{Services, World}
use samanager_backend.Scheduler.Receipts.{ByChain}
use samanager_backend.Scheduler.Poll.{execute_job_logic}
use samanager_backend.Scheduler.Steps.{
  Step, polled, executed, outside, Reach, here as no_step, next as then_step,
}
use samanager_backend.Scheduler.Loops.{
  Poller, first, no_ticker, ticking, Processor, looking, dequeuing, got, poller_step,
  processor_step, after_execution, Loops, poll_step, process_step, Turn, poller_turn,
  processor_turn, cancelling, others, Runs, here, next,
}

module _ (p : Services) (h : Hashing) (k : Signer) (is_hex_address : String → Bool)
    (format : ℕ → String) where
  abbrev pub AtMostOne : World p → World p → Type 0
  AtMostOne w w' = (w' ≡ w) ⊎ Step p h k is_hex_address format w w'

  poller_step-AtMostOne :
      (interval : ℤ) (chain_order : ByChain → ByChain) (order : List Group → List Group)
      (tick cancelled : Bool) (poller : Poller) (w : World p)
      → AtMostOne w (poller_step p interval chain_order order tick cancelled poller w).1
  unfolding poller_step
  poller_step-AtMostOne interval chain_order order tick cancelled Poller.idle w = inl refl
  poller_step-AtMostOne interval chain_order order tick cancelled first w =
      inr (polled chain_order order w)
  poller_step-AtMostOne interval chain_order order tick cancelled no_ticker w = inl refl
  poller_step-AtMostOne interval chain_order order true cancelled ticking w =
      inr (polled chain_order order w)
  poller_step-AtMostOne interval chain_order order false cancelled ticking w = inl refl
  poller_step-AtMostOne interval chain_order order tick cancelled Poller.ended w = inl refl
  poller_step-AtMostOne interval chain_order order tick cancelled Poller.crashed w = inl refl

  after_execution-AtMostOne :
      (job : EntityJob) (w : World p)
      → AtMostOne w (after_execution p h k w (execute_job_logic p h k job w)).1
  unfolding after_execution
  after_execution-AtMostOne job w = elim (Option-cases (execute_job_logic p h k job w)) [
    | inl e ↦ rw (e, after_execution) (inl refl)
    | inr (w', e) ↦ rw (e, after_execution) (inr (executed job w w' e))
  ]

  processor_step-AtMostOne :
      (cancelled : Bool) (processor : Processor) (w : World p)
      → AtMostOne w (processor_step p h k cancelled processor w).1
  unfolding processor_step
  processor_step-AtMostOne cancelled Processor.idle w = inl refl
  processor_step-AtMostOne cancelled looking w = inl refl
  processor_step-AtMostOne cancelled dequeuing w = inr (outside _ w.chains.net w)
  processor_step-AtMostOne cancelled (got (err e)) w = inl refl
  processor_step-AtMostOne cancelled (got (ok job)) w = after_execution-AtMostOne job w
  processor_step-AtMostOne cancelled Processor.ended w = inl refl
  processor_step-AtMostOne cancelled Processor.crashed w = inl refl

  pub extend :
      (w v u : World p)
      → Reach p h k is_hex_address format w v
      → AtMostOne v u
      → Reach p h k is_hex_address format w u
  extend w v u r (inl same) = rw same r
  extend w v u r (inr step) = then_step r step

  module _ (interval : ℤ) where
    pub Turn-AtMostOne :
        {l m : Loops p h k}
        → Turn p h k interval is_hex_address format l m
        → AtMostOne l.world m.world
    unfolding poll_step process_step
    Turn-AtMostOne (poller_turn chain_order order tick l) =
        poller_step-AtMostOne interval chain_order order tick l.cancelled l.poller l.world
    Turn-AtMostOne (processor_turn l) = processor_step-AtMostOne l.cancelled l.processor l.world
    Turn-AtMostOne (cancelling l) = inl refl
    Turn-AtMostOne (others l w step) = inr step

    -- However the two loops, the end of their context, requests and changes from outside follow each other, the cache,
    -- the table and the pools go through steps of the scheduler's step relation alone.
    pub Runs-Reach :
        {l m : Loops p h k}
        → Runs p h k interval is_hex_address format l m
        → Reach p h k is_hex_address format l.world m.world
    Runs-Reach here = no_step
    Runs-Reach (next r turn) = extend _ _ _ (Runs-Reach r) (Turn-AtMostOne turn)
