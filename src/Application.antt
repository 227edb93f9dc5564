-- ===== src/Application.antt =====
-- src/app/app.go, NewApplication and Shutdown, and src/app/migration.go. The drivers of Redis, of the database, of its
-- migrations and of passkeys are parameters; what they do is a change of one state.
pub mod Router
pub mod Ready
pub mod Lifecycle
use samanager_backend.Base.{
  ℕ, String, Bool, true, false, List, Option, none, some, Error, wrapped, Reply, ok, err, Done,
  if◌then◌else◌,
}
use samanager_backend.Base.Int.{ℤ}
use samanager_backend.Network.{Network}
use samanager_backend.Erc4337.Hash.{Hashing}
use samanager_backend.Execution.{Signer}
use samanager_backend.Execution.Service.{Ecdsa, new_execution_service}
use samanager_backend.Blockchain.{Chains, close}
use samanager_backend.Settings.Config.{AppConfig}
use samanager_backend.Settings.Wiring.{blockchain_config, new_blockchain_service}

pub record Drivers : Type 1 where
  pub State : Type 0
  pub RedisOptions : Type 0
  pub RedisClient : Type 0
  pub GormDb : Type 0
  pub SqlDb : Type 0
  pub Migration : Type 0
  pub WebAuthn : Type 0
  -- redis.ParseURL, NewClient, Ping and Close
  pub parse_url : String → Reply RedisOptions
  pub new_client : RedisOptions → RedisClient
  pub ping_redis : RedisClient → State → Reply Done × State
  pub close_redis : RedisClient → State → Reply Done × State
  -- gorm.Open and DB; Ping, Close, and the limits of the connection pool: how many may be open and idle, and for how
  -- many seconds they may live and be idle
  pub open_db : String → State → Reply GormDb × State
  pub sql_db : GormDb → Reply SqlDb
  pub limit_pool : ℕ → ℕ → ℕ → ℕ → SqlDb → State → State
  pub ping_db : SqlDb → State → Reply Done × State
  pub close_db : SqlDb → State → Reply Done × State
  -- migrate.New, Up and Down, and whether an error is ErrNoChange
  pub new_migration : String → String → State → Reply Migration × State
  pub up : Migration → State → Reply Done × State
  pub down : Migration → State → Reply Done × State
  pub is_no_change : Error → Bool
  -- webauthn.New
  pub new_webauthn : String → String → List String → Reply WebAuthn

-- How a function ends that may call log.Fatalf.
pub data Outcome {ℓ} (A : Type ℓ) : Type ℓ where
  exited : Error → Outcome A
  returned : Reply A → Outcome A

module _ (v : Drivers) where
  -- `if err := migration.Up(); err != nil && err != migrate.ErrNoChange`
  abbrev migrated : String → Reply Done → Option Error
  migrated text (ok done) = none
  migrated text (err e) = if v.is_no_change e then none else some (wrapped text e)

  migrate_by :
      (v.Migration → v.State → Reply Done × v.State)
      → String
      → Reply v.Migration × v.State
      → Option Error × v.State
  migrate_by run text (err e, s) = (some (wrapped "failed to create migrate" e), s)
  migrate_by run text (ok migration, s) =
      let (reply, s') = run migration s in (migrated text reply, s')

  -- The error is that of log.Fatalf.
  unfoldable pub migration_up : String → String → v.State → Option Error × v.State
  unfolding migrate_by
  migration_up dsn path s =
      migrate_by v.up "failed to run migration up" (v.new_migration path dsn s)

  unfoldable pub migration_down : String → String → v.State → Option Error × v.State
  unfolding migrate_by
  migration_down dsn path s =
      migrate_by v.down "failed to run migration down" (v.new_migration path dsn s)

  unfoldable pub new_passkey_service : AppConfig → Reply v.WebAuthn
  new_passkey_service c = v.new_webauthn c.rp_display_name c.rp_id c.rp_origins

  abbrev pub Starting {ℓ} : Type ℓ → Type ℓ
  Starting A = Outcome A × v.State

  -- `if err != nil { return nil, fmt.Errorf("text: %w", err) }`
  unfoldable pub attempt {ℓ κ} :
      {A : Type ℓ} {B : Type κ}
      → String
      → Reply A × v.State
      → (A → v.State → Starting B)
      → Starting B
  attempt text (err e, s) f = (returned (err (wrapped text e)), s)
  attempt text (ok a, s) f = f a s

  unfoldable pub unless_fatal {ℓ} :
      {B : Type ℓ} → Option Error × v.State → (v.State → Starting B) → Starting B
  unless_fatal (some e, s) f = (exited e, s)
  unless_fatal (none, s) f = f s

  module _ (n : Network) (h : Hashing) (e : Ecdsa) where
    -- The scheduler is made of the configuration's interval, the signer and the chains.
    pub record Application : Type 0 where
      pub config : AppConfig
      pub database : v.GormDb
      pub redis : v.RedisClient
      pub passkeys : v.WebAuthn
      pub signer : Signer
      pub chains : Chains n

    make_services : AppConfig → n.State → v.GormDb → v.RedisClient → v.State → Starting Application
    make_services c net database redis s =
        attempt "creation of passkey service failed" (new_passkey_service c, s)
          (λ passkeys s1.
            attempt "failed to create execution service"
              (new_execution_service h e c.required.private_key, s1)
              (λ signer s2. (
                returned (
                    ok (record {
                      config = c;
                      database = database;
                      redis = redis;
                      passkeys = passkeys;
                      signer = signer;
                      chains = new_blockchain_service n (blockchain_config c) net;
                    })),
                s2,
              )))

    connect_database : AppConfig → n.State → v.RedisClient → v.State → Starting Application
    unfolding make_services
    connect_database c net redis s =
        attempt "connection to database failed" (v.open_db c.required.dsn s) (λ database s1.
          attempt "failed to get underlying database connection" (v.sql_db database, s1)
            (λ sql s2.
              attempt "failed to get underlying database connection"
                (v.sql_db database, v.limit_pool 20 5 600 120 sql s2)
                (λ db s3. attempt "connection to database failed" (v.ping_db db s3) (λ done s4.
                  unless_fatal (migration_up c.required.dsn c.migration_path s4)
                    (λ s5. make_services c net database redis s5)))))

    unfoldable pub new_application : AppConfig → n.State → v.State → Starting Application
    unfolding connect_database
    new_application c net s =
        attempt "failed to parse redis URL" (v.parse_url c.required.redis_url, s)
          (λ opts s1.
            attempt "connection to redis failed" (v.ping_redis (v.new_client opts) s1)
              (λ done s2. connect_database c net (v.new_client opts) s2))

    close_database : Reply v.SqlDb → v.State → v.State
    close_database (err x) s = s
    close_database (ok db) s = (v.close_db db s).1

    -- Each error is only logged.
    unfoldable pub shutdown : Application → v.State → Application × v.State
    unfolding close_database
    shutdown app s = (
      record app { chains = close n app.chains },
      (v.close_redis app.redis (close_database (v.sql_db app.database) s)).1,
    )
