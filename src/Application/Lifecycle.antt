-- ===== src/Application/Lifecycle.antt =====
-- The life of the service: cmd/samanager/main.go from the start of its workers to its end, and RunHTTPServer and
-- RunPollingWorker of src/app/app.go. The goroutines are interleaved in any order; each has a program counter. Time is
-- left open: the 15 seconds of main may pass at any moment while it waits, and a server's shutdown ends in its own time.
pub mod Ended
pub mod Graceful
pub mod Refinement
use samanager_backend.Base.{
  ℕ, ◌+◌, ◌==◌, ◌≡◌, ◌⊎◌, String, Bool, true, false, str_eq, if◌then◌else◌,
}
use samanager_backend.Base.Int.{ℤ}
use samanager_backend.Erc4337.Hash.{Hashing}
use samanager_backend.Execution.{Signer}
use samanager_backend.Blockchain.{close}
use samanager_backend.Scheduler.World.{Services, World}
use samanager_backend.Scheduler.Loops.{Loops, new_job_scheduler, start, cancel, wg_count, Turn}

-- The HTTP server and the pprof server: waiting for the end of the context, in Shutdown, after wg.Done. The HTTP server
-- panics if it cannot listen.
pub data Server : Type 0 where
  serving shutting ended crashed : Server

-- RunPollingWorker: before Start, waiting for the end of the context, in Stop, after wg.Done.
pub data Worker : Type 0 where
  before waiting stopping ended : Worker

-- runSystemStatsLogger
pub data Stats : Type 0 where
  logging ended : Stats

-- `finished` tells whether all workers had ended.
pub data Main : Type 0 where
  running waiting graceful timed_out : Main
  finished : Bool → Main

abbrev pub server_weight : Server → ℕ
server_weight serving = 1
server_weight shutting = 1
server_weight Server.ended = 0
server_weight crashed = 1

abbrev pub worker_weight : Worker → ℕ
worker_weight before = 1
worker_weight Worker.waiting = 1
worker_weight stopping = 1
worker_weight Worker.ended = 0

abbrev pub stats_weight : Stats → ℕ
stats_weight logging = 1
stats_weight Stats.ended = 0

unfoldable pub server_step : Bool → Server → Server
server_step done serving = if done then shutting else serving
server_step done shutting = Server.ended
server_step done Server.ended = Server.ended
server_step done crashed = crashed

unfoldable pub listen_fails : Server → Server
listen_fails serving = crashed
listen_fails shutting = shutting
listen_fails Server.ended = Server.ended
listen_fails crashed = crashed

-- A tick logs the statistics; the end of the context ends the loop.
unfoldable pub stats_step : Bool → Stats → Stats
stats_step done logging = if done then Stats.ended else logging
stats_step done Stats.ended = Stats.ended

module _ (p : Services) (h : Hashing) (k : Signer) where
  unfoldable pub worker_step : Bool → Worker → Loops p h k → Worker × Loops p h k
  worker_step done before l = (Worker.waiting, start p h k l)
  worker_step done Worker.waiting l =
      if done then (stopping, cancel p h k l) else (Worker.waiting, l)
  worker_step done stopping l = (if wg_count p h k l == 0 then Worker.ended else stopping, l)
  worker_step done Worker.ended l = (Worker.ended, l)

  pub record Program : Type 0 where
    pub loops : Loops p h k
    -- whether the root context is done
    pub root_done : Bool
    pub server : Server
    pub worker : Worker
    pub stats : Stats
    pub pprof : Server
    pub main : Main

  -- `wg` of main
  unfoldable pub workers : Program → ℕ
  workers s =
      server_weight s.server + worker_weight s.worker + stats_weight s.stats + server_weight s.pprof

  -- After NewApplication has returned; the pprof server is there in the environment "dev" alone.
  abbrev pub launch : String → World p → Program
  launch environment w = record {
    loops = new_job_scheduler p h k w;
    root_done = false;
    server = serving;
    worker = before;
    stats = logging;
    pprof = if str_eq environment "dev" then serving else Server.ended;
    main = running;
  }

  -- The signal: `rootCancel()`, which ends the scheduler's context too, since that is made from the root.
  abbrev pub signalled : Program → Program
  signalled s = record s { main = waiting; root_done = true; loops = cancel p h k s.loops }

  -- app.Shutdown: after the database and Redis, the pools.
  abbrev pub shut : Bool → Program → Program
  shut all s = record s {
    main = finished all;
    loops = record s.loops {
      world = record s.loops.world { chains = close p.network s.loops.world.chains };
    };
  }

  unfoldable pub work_step : Program → Program
  work_step s =
      let (worker, loops) = worker_step s.root_done s.worker s.loops in
      record s { worker = worker; loops = loops }

  module _ (interval : ℤ) (is_hex_address : String → Bool) (format : ℕ → String) where
    pub data Move (s : Program) : Program → Type 0 where
      server_moved : Move s (record s { server = server_step s.root_done s.server })
      server_failed : Move s (record s { server = listen_fails s.server })
      pprof_moved : Move s (record s { pprof = server_step s.root_done s.pprof })
      stats_moved : Move s (record s { stats = stats_step s.root_done s.stats })
      worker_moved : Move s (work_step s)
      scheduler_moved :
          (l : Loops p h k)
          → Turn p h k interval is_hex_address format s.loops l
          → Move s (record s { loops = l })
      signal : s.main ≡ running → Move s (signalled s)
      all_ended : s.main ≡ waiting → workers s ≡ 0 → Move s (record s { main = graceful })
      timeout : s.main ≡ waiting → Move s (record s { main = timed_out })
      shut_gracefully : s.main ≡ graceful → Move s (shut true s)
      shut_late : s.main ≡ timed_out → Move s (shut false s)

    pub data Life (environment : String) (w : World p) : Program → Type 0 where
      launched : Life environment w (launch environment w)
      later : {s t : Program} → Life environment w s → Move s t → Life environment w t
