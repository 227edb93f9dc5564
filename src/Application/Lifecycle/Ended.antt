-- ===== src/Application/Lifecycle/Ended.antt =====
-- The workers of cmd/samanager/main.go that have ended stay so.
use samanager_backend.Base.{◌≡◌, refl, Bool, arith}
use samanager_backend.Erc4337.Hash.{Hashing}
use samanager_backend.Execution.{Signer}
use samanager_backend.Scheduler.World.{Services}
use samanager_backend.Scheduler.Loops.{Loops}
use samanager_backend.Application.Lifecycle.{
  Server, serving, shutting, crashed, Worker, before, stopping, Stats, logging, Main, server_weight,
  worker_weight, stats_weight, server_step, listen_fails, stats_step, worker_step, Program, workers,
  shut,
}

pub server_step-zero :
    (done : Bool) (x : Server) → server_weight x ≡ 0 → server_weight (server_step done x) ≡ 0
unfolding server_step
server_step-zero done serving h = absurd (omega arith)
server_step-zero done shutting h = absurd (omega arith)
server_step-zero done Server.ended h = refl
server_step-zero done crashed h = absurd (omega arith)

pub listen_fails-zero : (x : Server) → server_weight x ≡ 0 → server_weight (listen_fails x) ≡ 0
unfolding listen_fails
listen_fails-zero serving h = absurd (omega arith)
listen_fails-zero shutting h = absurd (omega arith)
listen_fails-zero Server.ended h = refl
listen_fails-zero crashed h = absurd (omega arith)

pub stats_step-zero :
    (done : Bool) (x : Stats) → stats_weight x ≡ 0 → stats_weight (stats_step done x) ≡ 0
unfolding stats_step
stats_step-zero done logging h = absurd (omega arith)
stats_step-zero done Stats.ended h = refl

module _ (p : Services) (h : Hashing) (k : Signer) where
  pub worker_step-zero :
      (done : Bool) (x : Worker) (l : Loops p h k)
      → worker_weight x ≡ 0
      → worker_weight (worker_step p h k done x l).0 ≡ 0
  unfolding worker_step
  worker_step-zero done before l z = absurd (omega arith)
  worker_step-zero done Worker.waiting l z = absurd (omega arith)
  worker_step-zero done stopping l z = absurd (omega arith)
  worker_step-zero done Worker.ended l z = refl

  -- The four parts of `workers`.
  pub record Ended (s : Program p h k) : Type 0 where
    pub server : server_weight s.server ≡ 0
    pub worker : worker_weight s.worker ≡ 0
    pub stats : stats_weight s.stats ≡ 0
    pub pprof : server_weight s.pprof ≡ 0

  pub workers-Ended : (s : Program p h k) → workers p h k s ≡ 0 → Ended s
  unfolding workers
  workers-Ended s z = record {
    server = omega (arith, z);
    worker = omega (arith, z);
    stats = omega (arith, z);
    pprof = omega (arith, z);
  }

  pub Ended-workers : (s : Program p h k) → Ended s → workers p h k s ≡ 0
  unfolding workers
  Ended-workers s e = omega (arith, e.server, e.worker, e.stats, e.pprof)

  pub moved_loops : (s : Program p h k) (l : Loops p h k) → Ended s → Ended (record s { loops = l })
  moved_loops s l e = record {
    server = e.server;
    worker = e.worker;
    stats = e.stats;
    pprof = e.pprof;
  }

  pub at_main : (s : Program p h k) (m : Main) → Ended s → Ended (record s { main = m })
  at_main s m e = record { server = e.server; worker = e.worker; stats = e.stats; pprof = e.pprof }

  pub closed_down : (s : Program p h k) (all : Bool) → Ended s → Ended (shut p h k all s)
  closed_down s all e = record {
    server = e.server;
    worker = e.worker;
    stats = e.stats;
    pprof = e.pprof;
  }
