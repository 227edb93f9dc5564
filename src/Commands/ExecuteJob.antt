-- ===== src/Commands/ExecuteJob.antt =====
-- cmd/executeJob/main.go: executes one job of the table at once, and waits for its receipt. log.Fatalf and
-- logger.Fatal end the process; the lines of the log have no effect but for the last, which says how it went.
pub mod Reported
use samanager_backend.Base.{
  ℕ, String, Bool, true, false, List, [], ◌≡◌, Option, none, some, Error, Reply, ok, err, Done,
  if◌then◌else◌,
}
use samanager_backend.Base.Int.{ℤ, pos}
use samanager_backend.Network.{Network, UserOperationReceipt}
use samanager_backend.Erc4337.Hash.{Hashing}
use samanager_backend.Domain.Job.{EntityJob, Texts}
use samanager_backend.Jobs.Database.{Database}
use samanager_backend.Jobs.Service.{get_job_by_id}
use samanager_backend.Blockchain.{Urls, Chains, get_bundler_client}
use samanager_backend.Bundler.Wait.{wait_for_user_op_receipt}
use samanager_backend.Execution.{Signer, Run, execute_job}
use samanager_backend.Execution.Service.{Ecdsa, new_execution_service}
use samanager_backend.Settings.Config.{Env, AppConfig, new_app_config}
use samanager_backend.Settings.Wiring.{new_blockchain_service}
use samanager_backend.Application.{Drivers}

abbrev pub job_id : String
job_id = "a02461b1-54b2-4e25-9648-a845618ba33b"

-- `service.BlockchainConfig`, with the fields that the command sets; the others are empty texts.
abbrev pub command_config : AppConfig → Urls
command_config c = record {
  sepolia = c.sepolia_rpc_url;
  arbitrum_sepolia = c.arbitrum_sepolia_rpc_url;
  base_sepolia = c.base_sepolia_rpc_url;
  optimism_sepolia = c.optimism_sepolia_rpc_url;
  polygon_amoy = c.polygon_amoy_rpc_url;
  arbitrum = "";
  base = "";
}

pub data Ending : Type 0 where
  fatal : Error → Ending
  panicked : Ending
  -- the receipt is in the log, and whether the operation has succeeded
  reported : UserOperationReceipt → Ending

module _ (n : Network) (sleep : n.State → n.State) (h : Hashing) where
  -- The context is never done: between two attempts the poll interval passes.
  abbrev pub pass : n.State → Option Error × n.State
  pass s = (none, sleep s)

  ending : Reply UserOperationReceipt → Ending
  ending (err e) = fatal e
  ending (ok receipt) = reported receipt

  wait_on : List ℕ → Reply n.RpcClient × Chains n → Ending × Chains n
  unfolding ending
  wait_on hash (err e, chains) = (fatal e, chains)
  wait_on hash (ok bundler, chains) =
      let (reply, net) = wait_for_user_op_receipt n pass bundler hash (pos 60) chains.net in
      (ending reply, record chains { net = net })

  module _ (k : Signer) where
    follow : EntityJob → Run n (List ℕ) → Chains n → Ending × Chains n
    unfolding wait_on
    follow job none chains = (panicked, chains)
    follow job (some (err e, after)) chains = (fatal e, after)
    follow job (some (ok hash, after)) chains =
        wait_on hash (get_bundler_client n job.chain_id after)

    unfoldable pub run_job : Reply EntityJob → Chains n → Ending × Chains n
    unfolding follow
    run_job (err e) chains = (fatal e, chains)
    run_job (ok job) chains = follow job (execute_job n h k job chains) chains

  module _ (d : Database) (t : Texts) (v : Drivers) (e : Ecdsa) where
    -- What the command works on.
    pub record Desk : Type 0 where
      pub drivers : v.State
      pub table : d.State
      pub net : n.State

    finish : Ending × Chains n → Desk → Ending × Desk
    finish (end, chains) w = (end, record w { net = chains.net })

    with_signer : AppConfig → Reply Signer → Desk → Ending × Desk
    unfolding finish
    with_signer c (err x) w = (fatal x, w)
    with_signer c (ok k) w =
        let (found, table) = get_job_by_id d t job_id w.table in
        finish (run_job k found (new_blockchain_service n (command_config c) w.net))
          (record w { table = table })

    -- The deferred `db.Close()`, which log.Fatal does not run.
    deferred : v.SqlDb → Ending × Desk → Ending × Desk
    deferred db (fatal x, w) = (fatal x, w)
    deferred db (panicked, w) = (panicked, record w { drivers = (v.close_db db w.drivers).1 })
    deferred db (reported receipt, w) =
        (reported receipt, record w { drivers = (v.close_db db w.drivers).1 })

    after_ping : AppConfig → v.SqlDb → Reply Done × v.State → Desk → Ending × Desk
    unfolding with_signer deferred
    after_ping c db (err x, s) w = (fatal x, record w { drivers = s })
    after_ping c db (ok done, s) w = deferred db (
        with_signer c (new_execution_service h e c.required.private_key) (record w { drivers = s }))

    after_db : AppConfig → Reply v.SqlDb → Desk → Ending × Desk
    unfolding after_ping
    after_db c (err x) w = (fatal x, w)
    after_db c (ok db) w = after_ping c db (v.ping_db db w.drivers) w

    after_open : AppConfig → Reply v.GormDb × v.State → Desk → Ending × Desk
    unfolding after_db
    after_open c (err x, s) w = (fatal x, record w { drivers = s })
    after_open c (ok database, s) w = after_db c (v.sql_db database) (record w { drivers = s })

    with_config : Reply AppConfig → Desk → Ending × Desk
    unfolding after_open
    with_config (err x) w = (fatal x, w)
    with_config (ok c) w = after_open c (v.open_db c.required.dsn w.drivers) w

    -- The environment is that after the .env file was loaded, or not: that is only a warning.
    unfoldable pub main : Env → String → Desk → Ending × Desk
    unfolding with_config
    main env default_migrations w = with_config (new_app_config env default_migrations) w
