-- ===== src/Commands/ExecuteJob/Reported.antt =====
-- When cmd/executeJob/main.go reports a receipt, and with which URLs it asks.
use samanager_backend.Base.{
  ℕ, ◌<◌, ◌⊎◌, String, false, List, ◌≡◌, ◌≢◌, ◌∙◌, sym, refl, none, some, Reply, ok, err, Done,
  Bool-cases, inl, inr,
}
use samanager_backend.Base.Int.{ℤ, pos, eq_ℤ, eq_of_eq_ℤ}
use samanager_backend.Network.{Network, UserOperationReceipt}
use samanager_backend.Erc4337.Hash.{Hashing}
use samanager_backend.Domain.Job.{EntityJob, Texts}
use samanager_backend.Jobs.Database.{Database}
use samanager_backend.Jobs.Service.{get_job_by_id}
use samanager_backend.Blockchain.{Chains, rpc_url, get_bundler_client}
use samanager_backend.Bundler.Wait.{
  wait_for_user_op_receipt, IsQuiet, attempt, after, receipt, wait_for_user_op_receipt_iff,
}
use samanager_backend.Execution.{Signer, Run, execute_job}
use samanager_backend.Execution.Signing.{Sent, execute_job-Sent}
use samanager_backend.Execution.Service.{Ecdsa, signer_of, with_key, new_execution_service}
use samanager_backend.Settings.Config.{Env, AppConfig, new_app_config}
use samanager_backend.Settings.Wiring.{blockchain_config, new_blockchain_service}
use samanager_backend.Application.{Drivers}
use samanager_backend.Commands.ExecuteJob.{
  job_id, command_config, Ending, fatal, panicked, reported, pass, ending, wait_on, follow, run_job,
  Desk, finish, with_signer, deferred, after_ping, after_db, after_open, with_config, main,
}

module _ (n : Network) (sleep : n.State → n.State) (h : Hashing) where
  -- The bundler had the receipt in one of the first 60 attempts, and in none before it.
  pub record Received (hash : List ℕ) (r : UserOperationReceipt) : Type 0 where
    pub bundler : n.RpcClient
    pub net : n.State
    pub attempts : ℕ
    pub below : attempts < 60
    pub none_before : IsQuiet n (pass n sleep h) bundler hash attempts net
    pub there :
        (attempt n
          (pass n sleep h)
          bundler
          hash
          (after n (pass n sleep h) bundler hash attempts net)).0
        ≡ receipt r

  ending-reported :
      (reply : Reply UserOperationReceipt) (r : UserOperationReceipt)
      → ending n sleep h reply ≡ reported r
      → reply ≡ ok r
  unfolding ending
  ending-reported (err e) r same = cc
  ending-reported (ok found) r same = cc

  wait_on-Received :
      (hash : List ℕ) (m : Reply n.RpcClient × Chains n) (r : UserOperationReceipt)
      → (wait_on n sleep h hash m).0 ≡ reported r
      → Received hash r
  unfolding wait_on
  wait_on-Received hash (err e, chains) r same = cc
  wait_on-Received hash (ok bundler, chains) r same =
      let found =
        ending-reported
          (wait_for_user_op_receipt n (pass n sleep h) bundler hash (pos 60) chains.net).0 r same in
      let (k, below, none_before, there) =
        (wait_for_user_op_receipt_iff n (pass n sleep h) bundler hash 60 chains.net r).0 found in
      record {
        bundler = bundler;
        net = chains.net;
        attempts = k;
        below = below;
        none_before = none_before;
        there = there;
      }

  module _ (k : Signer) where
    pub record Executed (job : EntityJob) (r : UserOperationReceipt) : Type 0 where
      pub hash : List ℕ
      -- what stood in the pools before
      pub pools : Chains n
      pub sent : Sent n h k job pools hash
      pub received : Received hash r

    follow-Executed :
        (job : EntityJob) (chains : Chains n) (run : Run n (List ℕ)) (r : UserOperationReceipt)
        → execute_job n h k job chains ≡ run
        → (follow n sleep h k job run chains).0 ≡ reported r
        → Executed job r
    unfolding follow
    follow-Executed job chains none r made same = cc
    follow-Executed job chains (some (err e, s)) r made same = cc
    follow-Executed job chains (some (ok hash, s)) r made same = record {
      hash = hash;
      pools = chains;
      sent = execute_job-Sent n h k job chains hash s made;
      received = wait_on-Received hash (get_bundler_client n job.chain_id s) r same;
    }

    run_job-Executed :
        (found : Reply EntityJob) (chains : Chains n) (r : UserOperationReceipt)
        → (run_job n sleep h k found chains).0 ≡ reported r
        → (job : EntityJob) × (found ≡ ok job) × Executed job r
    unfolding run_job
    run_job-Executed (err e) chains r same = cc
    run_job-Executed (ok job) chains r same =
        (job, refl, follow-Executed job chains (execute_job n h k job chains) r refl same)

  module _ (d : Database) (t : Texts) (v : Drivers) (e : Ecdsa) where
    pub record Report (table : d.State) (c : AppConfig) (r : UserOperationReceipt) : Type 0 where
      pub key : e.Key
      pub parsed : e.hex_to_ecdsa c.required.private_key ≡ ok key
      pub job : EntityJob
      pub read : (get_job_by_id d t job_id table).0 ≡ ok job
      pub executed : Executed (signer_of h e key) job r

    finish-reported :
        (m : Ending × Chains n) (w : Desk n sleep h d t v e)
        → (finish n sleep h d t v e m w).0 ≡ m.0
    unfolding finish
    finish-reported (end, chains) w = refl

    with_signer-Report :
        (c : AppConfig) (reply : Reply e.Key) (w : Desk n sleep h d t v e)
        (r : UserOperationReceipt)
        → e.hex_to_ecdsa c.required.private_key ≡ reply
        → (with_signer n sleep h d t v e c (with_key h e reply) w).0 ≡ reported r
        → Report w.table c r
    unfolding with_signer
    with_signer-Report c (err x) w r same found = cc
    with_signer-Report c (ok key) w r same found =
        let asked = get_job_by_id d t job_id w.table in
        let ran =
          run_job n sleep h (signer_of h e key) asked.0
            (new_blockchain_service n (command_config c) w.net) in
        let told : ran.0 ≡ reported r =
          sym (finish-reported ran (record w { table = asked.1 })) ∙ found in
        let (job, read, executed) = run_job-Executed (signer_of h e key) asked.0 _ r told in
        record { key = key; parsed = same; job = job; read = read; executed = executed }

    deferred-reported :
        (db : v.SqlDb) (m : Ending × Desk n sleep h d t v e) (r : UserOperationReceipt)
        → (deferred n sleep h d t v e db m).0 ≡ reported r
        → m.0 ≡ reported r
    unfolding deferred
    deferred-reported db (fatal x, w) r same = cc
    deferred-reported db (panicked, w) r same = cc
    deferred-reported db (reported r', w) r same = same

    after_ping-Report :
        (c : AppConfig) (db : v.SqlDb) (m : Reply Done × v.State) (w : Desk n sleep h d t v e)
        (r : UserOperationReceipt)
        → (after_ping n sleep h d t v e c db m w).0 ≡ reported r
        → Report w.table c r
    unfolding after_ping new_execution_service
    after_ping-Report c db (err x, s) w r same = cc
    after_ping-Report c db (ok done, s) w r same =
        with_signer-Report c (e.hex_to_ecdsa c.required.private_key) (record w { drivers = s }) r
          refl (deferred-reported db _ r same)

    after_db-Report :
        (c : AppConfig) (m : Reply v.SqlDb) (w : Desk n sleep h d t v e) (r : UserOperationReceipt)
        → (after_db n sleep h d t v e c m w).0 ≡ reported r
        → Report w.table c r
    unfolding after_db
    after_db-Report c (err x) w r same = cc
    after_db-Report c (ok db) w r same = after_ping-Report c db (v.ping_db db w.drivers) w r same

    after_open-Report :
        (c : AppConfig) (m : Reply v.GormDb × v.State) (w : Desk n sleep h d t v e)
        (r : UserOperationReceipt)
        → (after_open n sleep h d t v e c m w).0 ≡ reported r
        → Report w.table c r
    unfolding after_open
    after_open-Report c (err x, s) w r same = cc
    after_open-Report c (ok database, s) w r same =
        after_db-Report c (v.sql_db database) (record w { drivers = s }) r same

    with_config-Report :
        (m : Reply AppConfig) (w : Desk n sleep h d t v e) (r : UserOperationReceipt)
        → (with_config n sleep h d t v e m w).0 ≡ reported r
        → (c : AppConfig) × (m ≡ ok c) × Report w.table c r
    unfolding with_config
    with_config-Report (err x) w r same = cc
    with_config-Report (ok c) w r same =
        (c, refl, after_open-Report c (v.open_db c.required.dsn w.drivers) w r same)

    -- The command reports a receipt only where the environment makes a configuration, the job was read from the table,
    -- and an operation signed by the configuration's key was sent for it, and where the bundler had that receipt for
    -- the operation's hash in one of the first 60 attempts and none in those before.
    pub main-Report :
        (env : Env) (default_migrations : String) (w : Desk n sleep h d t v e)
        (r : UserOperationReceipt)
        → (main n sleep h d t v e env default_migrations w).0 ≡ reported r
        → (c : AppConfig) × (new_app_config env default_migrations ≡ ok c) × Report w.table c r
    unfolding main
    main-Report env default_migrations w r same =
        with_config-Report (new_app_config env default_migrations) w r same

-- A chain's URL, by the tests of the switch on its id.
abbrev pub IsLeftOut : ℤ → Type 0
IsLeftOut id = (id ≡ pos 42161) ⊎ (id ≡ pos 8453)

differs : (a b : ℤ) → a ≢ b → eq_ℤ a b ≡ false
differs a b other = elim (Bool-cases (eq_ℤ a b)) [
  | inl e ↦ absurd (other (eq_of_eq_ℤ a b e))
  | inr e ↦ e
]

-- The command asks with the service's URL on every chain but for Arbitrum and Base, where its configuration has the
-- empty text, whatever the environment says.
pub rpc_url-command_config :
    (c : AppConfig) (id : ℤ)
    → (IsLeftOut id → rpc_url (command_config c) id ≡ some "")
      × (¬ IsLeftOut id → rpc_url (command_config c) id ≡ rpc_url (blockchain_config c) id)
unfolding rpc_url
rpc_url-command_config c id = (
  λ out. elim out [ inl e ↦ rw e refl | inr e ↦ rw e refl ],
  λ other.
      let not_arbitrum = differs id (pos 42161) (λ e. other (inl e)) in
      let not_base = differs id (pos 8453) (λ e. other (inr e)) in rw (not_arbitrum, not_base) refl,
)
