-- ===== src/Scheduler/Loops/Interval.antt =====
-- The polling interval of src/app/config.go in pollJobs of src/service/scheduler.go.
use samanager_backend.Base.{
  ℕ, ◌≤◌, ◌≡◌, ◌≢◌, refl, String, Bool, true, false, List, some, str_eq, if◌then◌else◌,
}
use mathlib.Core.Path.{subst}
use samanager_backend.Base.Int.{ℤ, abs}
use samanager_backend.Erc4337.Hash.{Hashing}
use samanager_backend.Execution.{Signer}
use samanager_backend.Blockchain.Configs.{Group}
use samanager_backend.Settings.Texts.{atoi}
use samanager_backend.Settings.Config.{Env, get_polling_interval}
use samanager_backend.Settings.Config.Laws.{get_polling_interval-atoi}
use samanager_backend.Scheduler.World.{Services, World}
use samanager_backend.Scheduler.Receipts.{ByChain}
use samanager_backend.Scheduler.Ticker.{makes_ticker, is_positive, makes_ticker_iff}
use samanager_backend.Scheduler.Loops.{
  Poller, first, no_ticker, ticking, select_tick, poller_step, Loops, new_job_scheduler, start,
  poll_step, process_step, poller_turn, processor_turn, cancelling, others, Runs, here, next,
}

-- Where the poller can stand, by whether there is a ticker.
abbrev pub IsPossible : Bool → Poller → Type 0
IsPossible made Poller.idle = Unit
IsPossible made first = Unit
IsPossible made no_ticker = Unit
IsPossible made ticking = made ≡ true
IsPossible made Poller.ended = made ≡ true
IsPossible made Poller.crashed = made ≡ false

module _ (p : Services) where
  made-IsPossible : (made : Bool) → IsPossible made (if made then ticking else Poller.crashed)
  made-IsPossible true = refl
  made-IsPossible false = refl

  module _ (interval : ℤ) (chain_order : ByChain → ByChain) (order : List Group → List Group) where
    poller_step-IsPossible :
        (tick cancelled : Bool) (poller : Poller) (w : World p)
        → IsPossible (makes_ticker interval) poller
        → IsPossible
            (makes_ticker interval)
            (poller_step p interval chain_order order tick cancelled poller w).0
    unfolding poller_step select_tick
    poller_step-IsPossible tick cancelled Poller.idle w h = tt
    poller_step-IsPossible tick cancelled first w h = tt
    poller_step-IsPossible tick cancelled no_ticker w h = made-IsPossible (makes_ticker interval)
    poller_step-IsPossible true cancelled ticking w h = h
    poller_step-IsPossible false true ticking w h = h
    poller_step-IsPossible false false ticking w h = h
    poller_step-IsPossible tick cancelled Poller.ended w h = h
    poller_step-IsPossible tick cancelled Poller.crashed w h = h

  module _ (h : Hashing) (k : Signer) (interval : ℤ) (is_hex_address : String → Bool)
      (format : ℕ → String) where
    Runs-IsPossible :
        {l m : Loops p h k}
        → Runs p h k interval is_hex_address format l m
        → IsPossible (makes_ticker interval) l.poller
        → IsPossible (makes_ticker interval) m.poller
    unfolding poll_step process_step
    Runs-IsPossible here was = was
    Runs-IsPossible (next r (poller_turn chain_order order tick l)) was =
        poller_step-IsPossible interval chain_order order tick l.cancelled l.poller l.world
          (Runs-IsPossible r was)
    Runs-IsPossible (next r (processor_turn l)) was = Runs-IsPossible r was
    Runs-IsPossible (next r (cancelling l)) was = Runs-IsPossible r was
    Runs-IsPossible (next r (others l w step)) was = Runs-IsPossible r was

possible-not_crashed : (x : Poller) → IsPossible true x → x ≢ Poller.crashed
possible-not_crashed Poller.crashed h e = cc
possible-not_crashed Poller.idle h e = cc
possible-not_crashed first h e = cc
possible-not_crashed no_ticker h e = cc
possible-not_crashed ticking h e = cc
possible-not_crashed Poller.ended h e = cc

possible-not_ticking : (x : Poller) → IsPossible false x → (x ≢ ticking) × (x ≢ Poller.ended)
possible-not_ticking Poller.crashed h = (λ e. cc, λ e. cc)
possible-not_ticking Poller.idle h = (λ e. cc, λ e. cc)
possible-not_ticking first h = (λ e. cc, λ e. cc)
possible-not_ticking no_ticker h = (λ e. cc, λ e. cc)
possible-not_ticking ticking h = cc
possible-not_ticking Poller.ended h = cc

not_made : (b c : Bool) → (c ≡ true → b ≡ true) → b ≡ false → c ≡ false
not_made b true up stops = cc (up refl)
not_made b false up stops = refl

-- With a POLLING_INTERVAL that is a number of at most 9223372036, either way, the poller of a scheduler that was
-- started never panics if the number is positive, and otherwise never waits for a tick and never ends but by a panic.
pub Runs-get_polling_interval :
    (env : Env) (interval : ℤ) (p : Services) (h : Hashing) (k : Signer)
    (is_hex_address : String → Bool) (format : ℕ → String) (w : World p) (m : Loops p h k)
    → str_eq (env "POLLING_INTERVAL") "" ≡ false
    → atoi (env "POLLING_INTERVAL") ≡ some interval
    → abs interval ≤ 9223372036
    → Runs p h k
        (get_polling_interval env)
        is_hex_address
        format
        (start p h k (new_job_scheduler p h k w))
        m
    → (is_positive interval ≡ true → m.poller ≢ Poller.crashed)
      × (is_positive interval ≡ false → (m.poller ≢ ticking) × (m.poller ≢ Poller.ended))
Runs-get_polling_interval env interval p h k is_hex_address format w m filled read small r =
    let same = get_polling_interval-atoi env interval filled read in
    let r' : Runs p h k interval is_hex_address format (start p h k (new_job_scheduler p h k w)) m =
      subst
        (λ (i : ℤ). Runs p h k i is_hex_address format (start p h k (new_job_scheduler p h k w)) m)
        same r in
    let stands = Runs-IsPossible p h k interval is_hex_address format r' tt in
    let iff = makes_ticker_iff interval small in
    (
      λ positive.
          possible-not_crashed m.poller
            (subst (λ (b : Bool). IsPossible b m.poller) (iff.1 positive) stands),
      λ not_positive. possible-not_ticking m.poller (
          subst (λ (b : Bool). IsPossible b m.poller)
            (not_made (is_positive interval) (makes_ticker interval) iff.0 not_positive) stands),
    )
