-- ===== src/Application/Lifecycle/Refinement.antt =====
-- The life of the service, from NewApplication of src/app/app.go on, against the step relation of the scheduler.
use samanager_backend.Base.{ℕ, ◌≡◌, ◌∙◌, refl, ap, String, Bool, true, false, none, ok, inl, inr}
use samanager_backend.Base.Int.{ℤ}
use samanager_backend.Erc4337.Hash.{Hashing}
use samanager_backend.Execution.{Signer}
use samanager_backend.Execution.Service.{Ecdsa}
use samanager_backend.Jobs.Database.{IsLawful}
use samanager_backend.Blockchain.{rpc_url, find_pool}
use samanager_backend.Settings.Config.{AppConfig}
use samanager_backend.Settings.Wiring.{blockchain_config, new_blockchain_service}
use samanager_backend.Scheduler.World.{Services, World}
use samanager_backend.Scheduler.Loops.{Loops}
use samanager_backend.Scheduler.Loops.Refinement.{AtMostOne, extend, Turn-AtMostOne}
use samanager_backend.Scheduler.Steps.{closed, Reach, here}
use samanager_backend.Scheduler.Steps.Safety.{Reach-pools}
use samanager_backend.Application.{Drivers, returned, Application, new_application}
use samanager_backend.Application.Ready.{new_application-Ready}
use samanager_backend.Application.Lifecycle.{
  Worker, before, stopping, Program, worker_step, work_step, Move, server_moved, server_failed,
  pprof_moved, stats_moved, worker_moved, scheduler_moved, signal, all_ended, timeout,
  shut_gracefully, shut_late, Life, launched, later,
}

module _ (p : Services) (h : Hashing) (k : Signer) (interval : ℤ) (is_hex_address : String → Bool)
    (format : ℕ → String) where
  worker_step-world :
      (done : Bool) (x : Worker) (l : Loops p h k) → (worker_step p h k done x l).1.world ≡ l.world
  unfolding worker_step
  worker_step-world done before l = refl
  worker_step-world true Worker.waiting l = refl
  worker_step-world false Worker.waiting l = refl
  worker_step-world done stopping l = refl
  worker_step-world done Worker.ended l = refl

  Move-AtMostOne :
      {s t : Program p h k}
      → Move p h k interval is_hex_address format s t
      → AtMostOne p h k is_hex_address format s.loops.world t.loops.world
  unfolding work_step
  Move-AtMostOne server_moved = inl refl
  Move-AtMostOne server_failed = inl refl
  Move-AtMostOne pprof_moved = inl refl
  Move-AtMostOne stats_moved = inl refl
  Move-AtMostOne {s} worker_moved = inl (worker_step-world s.root_done s.worker s.loops)
  Move-AtMostOne (scheduler_moved l turn) = Turn-AtMostOne p h k is_hex_address format interval turn
  Move-AtMostOne (signal at) = inl refl
  Move-AtMostOne (all_ended at z) = inl refl
  Move-AtMostOne (timeout at) = inl refl
  Move-AtMostOne {s} (shut_gracefully at) = inr (closed s.loops.world)
  Move-AtMostOne {s} (shut_late at) = inr (closed s.loops.world)

  -- Whatever the service does, its cache, table and pools go through steps of the scheduler's step relation alone.
  pub Life-Reach :
      {environment : String} {w : World p} {s : Program p h k}
      → Life p h k interval is_hex_address format environment w s
      → Reach p h k is_hex_address format w s.loops.world
  Life-Reach launched = here
  Life-Reach (later life move) =
      extend p h k is_hex_address format _ _ _ (Life-Reach life) (Move-AtMostOne move)

module _ (p : Services) (h : Hashing) (v : Drivers) (e : Ecdsa) where
  -- A service that NewApplication has made, on whatever cache and table, never has a client for a chain that is not
  -- supported, in either pool, at any moment of its life.
  pub Life-pools :
      (c : AppConfig) (net : p.network.State) (s : v.State) (app : Application v p.network h e)
      (s' : v.State) (lawful : IsLawful p.database) (is_hex_address : String → Bool)
      (format : ℕ → String) (cache : p.redis.State) (table : p.database.State)
      (program : Program p h app.signer) (id : ℤ)
      → new_application v p.network h e c net s ≡ (returned (ok app), s')
      → Life p h app.signer c.polling_interval is_hex_address format c.required.environment
          (record { cache = cache; table = table; chains = app.chains })
          program
      → rpc_url (blockchain_config c) id ≡ none
      → (find_pool id program.loops.world.chains.client_pool ≡ none)
        × (find_pool id program.loops.world.chains.bundler_pool ≡ none)
  unfolding new_blockchain_service
  Life-pools c net s app s' lawful is_hex_address format cache table program id made life
        unsupported =
      let fresh = (new_application-Ready v p.network h e c net s app s' made).fresh in
      Reach-pools p lawful h app.signer is_hex_address format
        (record { cache = cache; table = table; chains = app.chains }) program.loops.world id
        (Life-Reach p h app.signer c.polling_interval is_hex_address format life)
        (ap (λ chains. chains.client_pool) fresh) (ap (λ chains. chains.bundler_pool) fresh)
        (ap (λ chains. rpc_url chains.urls id) fresh ∙ unsupported)
