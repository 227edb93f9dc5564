-- ===== src/Tests/LifeRuns.antt =====
-- A service that starts on drivers that answer, and ends gracefully.
use samanager_backend.Base.{ℕ, ◌≡◌, ◌+◌, refl, String, Bool, false, List, [], none, ok, replicate}
use samanager_backend.Base.Int.{ℤ, pos}
use samanager_backend.Blockchain.{rpc_url, find_pool}
use samanager_backend.Blockchain.Configs.{Group}
use samanager_backend.Execution.{Signer}
use samanager_backend.Execution.Service
use samanager_backend.Execution.Service.{Ecdsa, new_execution_service}
use samanager_backend.Settings.Config.{AppConfig}
use samanager_backend.Settings.Wiring.{blockchain_config, new_blockchain_service}
use samanager_backend.Scheduler.Receipts.{ByChain}
use samanager_backend.Scheduler.World.{World}
use samanager_backend.Scheduler.Ticker.{makes_ticker}
use samanager_backend.Scheduler.Loops.{
  wg_count, poll_step, process_step, poller_step, processor_step, select_tick, poller_turn,
  processor_turn,
}
use samanager_backend.Application.{
  Drivers, migration_up, new_passkey_service, attempt, unless_fatal, Application, new_application,
}
use samanager_backend.Application.Ready.{Ready, new_application-Ready}
use samanager_backend.Application.Lifecycle.{
  Program, launch, server_step, stats_step, worker_step, work_step, workers, Move, server_moved,
  stats_moved, worker_moved, scheduler_moved, signal, all_ended, shut_gracefully, Life, launched,
  later,
}
use samanager_backend.Application.Lifecycle.Graceful.{Life-graceful}
use samanager_backend.Application.Lifecycle.Refinement.{Life-pools}
use samanager_backend.Tests.Stores.{table-IsLawful}
use samanager_backend.Tests.Samples.{sent_entry}
use samanager_backend.Tests.ChainRuns.{net, hashing, signer}
use samanager_backend.Tests.CacheRuns.{empty}
use samanager_backend.Tests.SchedulerRuns.{services}
use samanager_backend.Tests.SafetyRuns.{world}
use samanager_backend.Tests.HttpRuns.{is_known, times}

abbrev pub ecdsa : Ecdsa
ecdsa = record {
  Key = String;
  hex_to_ecdsa = λ text. ok text;
  sign = λ hash key. ok (replicate 65 1);
}

-- Their state counts the calls.
abbrev pub drivers : Drivers
drivers = record {
  State = ℕ;
  RedisOptions = String;
  RedisClient = String;
  GormDb = String;
  SqlDb = String;
  Migration = String;
  WebAuthn = String;
  parse_url = λ url. ok url;
  new_client = λ opts. opts;
  ping_redis = λ client s. (ok tt, s + 1);
  close_redis = λ client s. (ok tt, s + 1);
  open_db = λ dsn s. (ok dsn, s + 1);
  sql_db = λ db. ok db;
  limit_pool = λ most idle life idle_time db s. s + 1;
  ping_db = λ db s. (ok tt, s + 1);
  close_db = λ db s. (ok tt, s + 1);
  new_migration = λ path dsn s. (ok path, s + 1);
  up = λ migration s. (ok tt, s + 1);
  down = λ migration s. (ok tt, s + 1);
  is_no_change = λ e. false;
  new_webauthn = λ display id origins. ok id;
}

abbrev pub config : AppConfig
config = record {
  required = record {
    environment = "staging";
    dsn = "postgres";
    redis_url = "redis";
    private_key = "key";
    api_secret = "secret";
    allow_origins = [];
  };
  log_level = "info";
  port = "8080";
  host = "localhost:8080";
  polling_interval = pos 60;
  migration_path = "migrations";
  rp_display_name = "passkeys";
  rp_id = "localhost";
  rp_origins = [];
  sepolia_rpc_url = "sepolia";
  arbitrum_sepolia_rpc_url = "arbitrum sepolia";
  base_sepolia_rpc_url = "base sepolia";
  optimism_sepolia_rpc_url = "optimism sepolia";
  polygon_amoy_rpc_url = "polygon amoy";
  arbitrum_rpc_url = "arbitrum";
  base_rpc_url = "base";
}

abbrev app : Application drivers net hashing ecdsa
app = record {
  config = config;
  database = "postgres";
  redis = "redis";
  passkeys = "localhost";
  signer = Service.signer_of hashing ecdsa "key";
  chains = new_blockchain_service net (blockchain_config config) 0;
}

new_application-Ready_example : Ready drivers net hashing ecdsa config 0 0 app
unfolding new_application attempt unless_fatal migration_up new_passkey_service
    new_execution_service
new_application-Ready_example =
    new_application-Ready drivers net hashing ecdsa config 0 0 app 6 refl

-- The service from there on, with its moves.
module _ (k : Signer) (interval : ℤ) (w : World (services sent_entry)) where
  abbrev Alive : Type 0
  Alive =
      (s : Program (services sent_entry) hashing k) × Life (services sent_entry) hashing k interval
        is_known times "staging" w s

  abbrev go :
      (l : Alive) {t : Program (services sent_entry) hashing k}
      → Move (services sent_entry) hashing k interval is_known times l.0 t
      → Alive
  go (s, life) {t} move = (t, later life move)

  abbrev begin : Alive
  begin = (launch (services sent_entry) hashing k "staging" w, launched)

abbrev same_chains : ByChain → ByChain
same_chains chains = chains

abbrev same_groups : List Group → List Group
same_groups groups = groups

abbrev polls : Alive signer (pos 60) world → Alive signer (pos 60) world
polls l =
    go signer (pos 60) world l (scheduler_moved _ (poller_turn same_chains same_groups false _))

abbrev processes : Alive signer (pos 60) world → Alive signer (pos 60) world
processes l = go signer (pos 60) world l (scheduler_moved _ (processor_turn _))

abbrev works : Alive signer (pos 60) world → Alive signer (pos 60) world
works l = go signer (pos 60) world l worker_moved

-- Start, a round, the ticker; the signal; the two loops, the server and the statistics end.
abbrev ending : Alive signer (pos 60) world
unfolding work_step worker_step
ending =
    go signer (pos 60) world
      (go signer (pos 60) world
        (go signer (pos 60) world
          (works (
            processes (
              polls (
                works (
                  go signer (pos 60) world (polls (polls (works (begin signer (pos 60) world))))
                    (signal refl))))))
          server_moved)
        server_moved)
      stats_moved

abbrev closed_behind : Alive signer (pos 60) world
unfolding ending workers server_step stats_step worker_step wg_count poll_step process_step
    poller_step processor_step select_tick makes_ticker
closed_behind =
    go signer (pos 60) world (go signer (pos 60) world ending (all_ended refl refl))
      (shut_gracefully refl)

Life-graceful_example :
    (workers (services sent_entry) hashing signer closed_behind.0 ≡ 0)
    × (wg_count (services sent_entry) hashing signer closed_behind.0.loops ≡ 0)
    × ((process_step (services sent_entry) hashing signer closed_behind.0.loops).world
        ≡ closed_behind.0.loops.world)
    × ((chain_order : ByChain → ByChain) (order : List Group → List Group) (tick : Bool)
        → (poll_step
            (services sent_entry)
            hashing
            signer
            (pos 60)
            chain_order
            order
            tick
            closed_behind.0.loops).world
          ≡ closed_behind.0.loops.world)
unfolding closed_behind
Life-graceful_example =
    Life-graceful (services sent_entry) hashing signer (pos 60) is_known times "staging" world
      closed_behind.0 closed_behind.1 refl

abbrev home : World (services sent_entry)
home = record { cache = empty; table = world.table; chains = app.chains }

-- Start, and the first round.
abbrev young : Alive app.signer (pos 60) home
young =
    go app.signer (pos 60) home
      (go app.signer (pos 60) home (begin app.signer (pos 60) home) worker_moved)
      (scheduler_moved _ (poller_turn same_chains same_groups false _))

Life-pools_example :
    (find_pool (pos 1) young.0.loops.world.chains.client_pool ≡ none)
    × (find_pool (pos 1) young.0.loops.world.chains.bundler_pool ≡ none)
unfolding new_application attempt unless_fatal migration_up new_passkey_service
    new_execution_service rpc_url
Life-pools_example =
    Life-pools (services sent_entry) hashing drivers ecdsa config 0 0 app 6 table-IsLawful is_known
      times empty world.table young.0 (pos 1) refl young.1 refl
