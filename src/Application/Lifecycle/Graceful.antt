-- ===== src/Application/Lifecycle/Graceful.antt =====
-- What the graceful end of cmd/samanager/main.go finds.
use samanager_backend.Base.{
  ℕ, ◌≡◌, refl, String, Bool, true, false, List, inl, inr, ◌==◌, Bool-cases, ==_iff, arith,
  if◌then◌else◌,
}
use samanager_backend.Base.Int.{ℤ}
use samanager_backend.Erc4337.Hash.{Hashing}
use samanager_backend.Execution.{Signer}
use samanager_backend.Blockchain.Configs.{Group}
use samanager_backend.Scheduler.World.{Services, World}
use samanager_backend.Scheduler.Receipts.{ByChain}
use samanager_backend.Scheduler.Loops.{poll_step, process_step, Loops, wg_count}
use samanager_backend.Scheduler.Loops.Quiet.{
  IsQuiet, wg_count-IsQuiet, Turn-IsQuiet, poller_step-quiet, processor_step-quiet,
}
use samanager_backend.Application.Lifecycle.{
  Worker, before, stopping, Main, running, graceful, timed_out, finished, worker_weight,
  worker_step, Program, workers, work_step, shut, Move, server_moved, server_failed, pprof_moved,
  stats_moved, worker_moved, scheduler_moved, signal, all_ended, timeout, shut_gracefully,
  shut_late, Life, launched, later,
}
use samanager_backend.Application.Lifecycle.Ended.{
  server_step-zero, listen_fails-zero, stats_step-zero, worker_step-zero, Ended, workers-Ended,
  Ended-workers, moved_loops, at_main, closed_down,
}

abbrev pub is_graceful : Main → Bool
is_graceful running = false
is_graceful Main.waiting = false
is_graceful graceful = true
is_graceful timed_out = false
is_graceful (finished all) = all

module _ (p : Services) (h : Hashing) (k : Signer) where
  -- The worker has ended only with the loops quiet.
  stopped-IsQuiet :
      (l : Loops p h k)
      → worker_weight (if wg_count p h k l == 0 then Worker.ended else stopping) ≡ 0
      → IsQuiet p h k l
  stopped-IsQuiet l z = elim (Bool-cases (wg_count p h k l == 0)) [
    | inl e ↦ wg_count-IsQuiet p h k l ((==_iff (wg_count p h k l) 0).0 e)
    | inr e ↦ absurd (omega (arith, rw e at z))
  ]

  worker_step-IsQuiet :
      (done : Bool) (x : Worker) (l : Loops p h k)
      → (worker_weight x ≡ 0 → IsQuiet p h k l)
      → worker_weight (worker_step p h k done x l).0 ≡ 0
      → IsQuiet p h k (worker_step p h k done x l).1
  unfolding worker_step
  worker_step-IsQuiet done before l was z = absurd (omega arith)
  worker_step-IsQuiet true Worker.waiting l was z = absurd (omega arith)
  worker_step-IsQuiet false Worker.waiting l was z = absurd (omega arith)
  worker_step-IsQuiet done stopping l was z = stopped-IsQuiet l z
  worker_step-IsQuiet done Worker.ended l was z = was refl

  record Inv (s : Program p h k) : Type 0 where
    quiet : worker_weight s.worker ≡ 0 → IsQuiet p h k s.loops
    all : is_graceful s.main ≡ true → workers p h k s ≡ 0

  -- What ends in `s` has ended in `t`, where main stands at the same place.
  all_kept :
      (s t : Program p h k)
      → (Ended p h k s → Ended p h k t)
      → Inv s
      → is_graceful s.main ≡ true
      → workers p h k t ≡ 0
  all_kept s t ends i g = Ended-workers p h k t (ends (workers-Ended p h k s (i.all g)))

  module _ (interval : ℤ) (is_hex_address : String → Bool) (format : ℕ → String) where
    Move-Inv : {s t : Program p h k} → Move p h k interval is_hex_address format s t → Inv s → Inv t
    unfolding work_step
    Move-Inv {s} server_moved i = record {
      quiet = i.quiet;
      all =
          all_kept s _
            (λ e. record {
              server = server_step-zero s.root_done s.server e.server;
              worker = e.worker;
              stats = e.stats;
              pprof = e.pprof;
            })
            i;
    }
    Move-Inv {s} server_failed i = record {
      quiet = i.quiet;
      all =
          all_kept s _
            (λ e. record {
              server = listen_fails-zero s.server e.server;
              worker = e.worker;
              stats = e.stats;
              pprof = e.pprof;
            })
            i;
    }
    Move-Inv {s} pprof_moved i = record {
      quiet = i.quiet;
      all =
          all_kept s _
            (λ e. record {
              server = e.server;
              worker = e.worker;
              stats = e.stats;
              pprof = server_step-zero s.root_done s.pprof e.pprof;
            })
            i;
    }
    Move-Inv {s} stats_moved i = record {
      quiet = i.quiet;
      all =
          all_kept s _
            (λ e. record {
              server = e.server;
              worker = e.worker;
              stats = stats_step-zero s.root_done s.stats e.stats;
              pprof = e.pprof;
            })
            i;
    }
    Move-Inv {s} worker_moved i = record {
      quiet = worker_step-IsQuiet s.root_done s.worker s.loops i.quiet;
      all =
          all_kept s _
            (λ e. record {
              server = e.server;
              worker = worker_step-zero p h k s.root_done s.worker s.loops e.worker;
              stats = e.stats;
              pprof = e.pprof;
            })
            i;
    }
    Move-Inv {s} (scheduler_moved l turn) i = record {
      quiet = λ z. Turn-IsQuiet p h k interval is_hex_address format turn (i.quiet z);
      all = all_kept s _ (λ e. moved_loops p h k s l e) i;
    }
    Move-Inv {s} (signal at) i = record {
      quiet = λ z. let q = i.quiet z in record { poller = q.poller; processor = q.processor };
      all = λ g. cc;
    }
    Move-Inv {s} (all_ended at z) i = record {
      quiet = i.quiet;
      all = λ g. Ended-workers p h k _ (at_main p h k s graceful (workers-Ended p h k s z));
    }
    Move-Inv {s} (timeout at) i = record { quiet = i.quiet; all = λ g. cc }
    Move-Inv {s} (shut_gracefully at) i = record {
      quiet = λ z. let q = i.quiet z in record { poller = q.poller; processor = q.processor };
      all = λ g. all_kept s (shut p h k true s) (λ e. closed_down p h k s true e) i (rw at refl);
    }
    Move-Inv {s} (shut_late at) i = record {
      quiet = λ z. let q = i.quiet z in record { poller = q.poller; processor = q.processor };
      all = λ g. cc;
    }

    Life-Inv :
        {environment : String} {w : World p} {s : Program p h k}
        → Life p h k interval is_hex_address format environment w s
        → Inv s
    Life-Inv launched = record { quiet = λ z. absurd (omega (arith, z)); all = λ g. cc }
    Life-Inv (later life move) = Move-Inv move (Life-Inv life)

    -- When main takes the way on which all workers have ended, and from then on, no worker is left, neither of the
    -- scheduler's loops is, and no turn of theirs changes the cache, the table or the pools.
    pub Life-graceful :
        (environment : String) (w : World p) (s : Program p h k)
        → Life p h k interval is_hex_address format environment w s
        → is_graceful s.main ≡ true
        → (workers p h k s ≡ 0)
          × (wg_count p h k s.loops ≡ 0)
          × ((process_step p h k s.loops).world ≡ s.loops.world)
          × ((chain_order : ByChain → ByChain) (order : List Group → List Group) (tick : Bool)
              → (poll_step p h k interval chain_order order tick s.loops).world ≡ s.loops.world)
    unfolding wg_count process_step poll_step
    Life-graceful environment w s life g =
        let i = Life-Inv life in
        let none_left = i.all g in
        let q = i.quiet (workers-Ended p h k s none_left).worker in
        (
          none_left,
          omega (arith, q.poller, q.processor),
          (processor_step-quiet p h k s.loops.cancelled s.loops.processor s.loops.world
              q.processor).1,
          λ chain_order order tick.
              (poller_step-quiet p h k interval chain_order order tick s.loops.cancelled
                s.loops.poller s.loops.world q.poller).1,
        )
