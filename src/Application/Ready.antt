-- ===== src/Application/Ready.antt =====
-- What NewApplication of src/app/app.go has done when it returns.
use samanager_backend.Base.{
  ◌≡◌, ◌⊎◌, refl, String, Option, none, some, Error, Reply, ok, err, Done, true, inl, inr,
  Bool-cases,
}
use samanager_backend.Network.{Network}
use samanager_backend.Erc4337.Hash.{Hashing}
use samanager_backend.Execution.{Signer}
use samanager_backend.Execution.Service.{Ecdsa, signer_of, with_key, new_execution_service}
use samanager_backend.Settings.Config.{AppConfig}
use samanager_backend.Settings.Wiring.{blockchain_config, new_blockchain_service}
use samanager_backend.Application.{
  Drivers, returned, migrated, migrate_by, migration_up, Starting, attempt, unless_fatal,
  Application, make_services, connect_database, new_application,
}

module _ (v : Drivers) where
  attempt-returned {ℓ κ} :
      {A : Type ℓ} {B : Type κ} (text : String) (m : Reply A × v.State)
      (f : A → v.State → Starting v B) {b : B} {s' : v.State}
      → attempt v text m f ≡ (returned (ok b), s')
      → (a : A) × (m.0 ≡ ok a) × (f a m.1 ≡ (returned (ok b), s'))
  unfolding attempt
  attempt-returned text (ok a, s) f h = (a, refl, h)
  attempt-returned text (err e, s) f h = cc

  unless_fatal-returned {ℓ} :
      {B : Type ℓ} (m : Option Error × v.State) (f : v.State → Starting v B) {b : B} {s' : v.State}
      → unless_fatal v m f ≡ (returned (ok b), s')
      → (m.0 ≡ none) × (f m.1 ≡ (returned (ok b), s'))
  unfolding unless_fatal
  unless_fatal-returned (none, s) f h = (refl, h)
  unless_fatal-returned (some e, s) f h = cc

  -- The migrations have run, or there was none to run.
  abbrev pub IsMigrated : Reply Done → Type 0
  IsMigrated reply = (reply ≡ ok tt) ⊎ ((e : Error) × (reply ≡ err e) × (v.is_no_change e ≡ true))

  migrated-none :
      (text : String) (reply : Reply Done) → migrated v text reply ≡ none → IsMigrated reply
  migrated-none text (ok done) h = inl refl
  migrated-none text (err e) h = elim (Bool-cases (v.is_no_change e)) [
    | inl same ↦ inr (e, refl, same)
    | inr other ↦ cc (rw other at h)
  ]

  pub record Migrated (c : AppConfig) (s : v.State) : Type 0 where
    pub migration : v.Migration
    pub made : (v.new_migration c.migration_path c.required.dsn s).0 ≡ ok migration
    pub ran : IsMigrated (v.up migration (v.new_migration c.migration_path c.required.dsn s).1).0

  migrate_by-none :
      (m : Reply v.Migration × v.State)
      → (migrate_by v v.up "failed to run migration up" m).0 ≡ none
      → (migration : v.Migration) × (m.0 ≡ ok migration) × IsMigrated (v.up migration m.1).0
  unfolding migrate_by
  migrate_by-none (err e, s) h = cc
  migrate_by-none (ok migration, s) h =
      (migration, refl, migrated-none "failed to run migration up" (v.up migration s).0 h)

  migration_up-Migrated :
      (c : AppConfig) (s : v.State)
      → (migration_up v c.required.dsn c.migration_path s).0 ≡ none
      → Migrated c s
  unfolding migration_up
  migration_up-Migrated c s h =
      let (migration, made, ran) =
        migrate_by-none (v.new_migration c.migration_path c.required.dsn s) h in
      record { migration = migration; made = made; ran = ran }

  module _ (n : Network) (h : Hashing) (e : Ecdsa) where
    with_key-ok :
        (reply : Reply e.Key) (signer : Signer)
        → with_key h e reply ≡ ok signer
        → (key : e.Key) × (reply ≡ ok key) × (signer ≡ signer_of h e key)
    with_key-ok (err x) signer same = cc
    with_key-ok (ok key) signer same = (key, refl, cc)

    -- The states of the drivers on the way.
    abbrev pub after_redis : v.RedisOptions → v.State → v.State
    after_redis opts s = (v.ping_redis (v.new_client opts) s).1

    abbrev pub after_open : AppConfig → v.RedisOptions → v.State → v.State
    after_open c opts s = (v.open_db c.required.dsn (after_redis opts s)).1

    abbrev pub ping : AppConfig → v.RedisOptions → v.SqlDb → v.State → Reply Done × v.State
    ping c opts sql s = v.ping_db sql (v.limit_pool 20 5 600 120 sql (after_open c opts s))

    -- What a start that succeeds has seen, each answer in the state in which it was given.
    pub record Ready (c : AppConfig) (net : n.State) (s : v.State) (app : Application v n h e)
        : Type 0 where
      pub opts : v.RedisOptions
      pub address : v.parse_url c.required.redis_url ≡ ok opts
      pub redis : (v.ping_redis (v.new_client opts) s).0 ≡ ok tt
      pub opened : (v.open_db c.required.dsn (after_redis opts s)).0 ≡ ok app.database
      pub sql : v.SqlDb
      pub underlying : v.sql_db app.database ≡ ok sql
      pub answered : (ping c opts sql s).0 ≡ ok tt
      pub migrated : Migrated c (ping c opts sql s).1
      pub key : e.Key
      pub parsed : e.hex_to_ecdsa c.required.private_key ≡ ok key
      pub signs : app.signer ≡ signer_of h e key
      pub client : app.redis ≡ v.new_client opts
      pub fresh : app.chains ≡ new_blockchain_service n (blockchain_config c) net

    record Made (c : AppConfig) (net : n.State) (database : v.GormDb) (redis : v.RedisClient)
        (app : Application v n h e) : Type 0 where
      key : e.Key
      parsed : e.hex_to_ecdsa c.required.private_key ≡ ok key
      signs : app.signer ≡ signer_of h e key
      same_database : app.database ≡ database
      client : app.redis ≡ redis
      fresh : app.chains ≡ new_blockchain_service n (blockchain_config c) net

    make_services-Made :
        (c : AppConfig) (net : n.State) (database : v.GormDb) (redis : v.RedisClient) (s : v.State)
        {app : Application v n h e} {s' : v.State}
        → make_services v n h e c net database redis s ≡ (returned (ok app), s')
        → Made c net database redis app
    unfolding make_services new_execution_service
    make_services-Made c net database redis s {app} same =
        let (passkeys, _, e1) = attempt-returned "creation of passkey service failed" _ _ same in
        let (signer, eq_signer, e2) =
          attempt-returned "failed to create execution service" _ _ e1 in
        let (key, parsed, signs) =
          with_key-ok (e.hex_to_ecdsa c.required.private_key) signer eq_signer in
        let own : record {
          config = c;
          database = database;
          redis = redis;
          passkeys = passkeys;
          signer = signer;
          chains = new_blockchain_service n (blockchain_config c) net;
        }
            ≡ app =
          cc in
        record {
          key = key;
          parsed = parsed;
          signs = cc;
          same_database = cc;
          client = cc;
          fresh = cc;
        }

    -- The second `DB()` gives the same connection as the first.
    assemble :
        (c : AppConfig) (net : n.State) (s : v.State) (app : Application v n h e)
        (opts : v.RedisOptions) (database : v.GormDb) (sql db : v.SqlDb)
        → v.parse_url c.required.redis_url ≡ ok opts
        → (v.ping_redis (v.new_client opts) s).0 ≡ ok tt
        → (v.open_db c.required.dsn (after_redis opts s)).0 ≡ ok database
        → v.sql_db database ≡ ok sql
        → v.sql_db database ≡ ok db
        → (v.ping_db db (v.limit_pool 20 5 600 120 sql (after_open c opts s))).0 ≡ ok tt
        → (migration_up v c.required.dsn c.migration_path
            (v.ping_db db (v.limit_pool 20 5 600 120 sql (after_open c opts s))).1).0
          ≡ none
        → Made c net database (v.new_client opts) app
        → Ready c net s app
    assemble c net s app opts database sql db address redis opened underlying again answered ran
          made =
        let same : db ≡ sql = cc in
        record {
          opts = opts;
          address = address;
          redis = redis;
          opened = cc (made.same_database);
          sql = sql;
          underlying = cc (made.same_database);
          answered = cc;
          migrated = migration_up-Migrated c _ (rw same at ran);
          key = made.key;
          parsed = made.parsed;
          signs = made.signs;
          client = made.client;
          fresh = made.fresh;
        }

    -- NewApplication returns an application only after Redis and the database have answered their pings, in this order,
    -- and after them the migrations have run or there was none to run; its key is the configuration's, its database and
    -- Redis client are those that have answered, and its pools are empty.
    pub new_application-Ready :
        (c : AppConfig) (net : n.State) (s : v.State) (app : Application v n h e) (s' : v.State)
        → new_application v n h e c net s ≡ (returned (ok app), s')
        → Ready c net s app
    unfolding new_application connect_database
    new_application-Ready c net s app s' same =
        let (opts, address, e1) = attempt-returned "failed to parse redis URL" _ _ same in
        let (_, redis, e2) = attempt-returned "connection to redis failed" _ _ e1 in
        let (database, opened, e3) = attempt-returned "connection to database failed" _ _ e2 in
        let (sql, underlying, e4) =
          attempt-returned "failed to get underlying database connection" _ _ e3 in
        let (db, underlying', e5) =
          attempt-returned "failed to get underlying database connection" _ _ e4 in
        let (_, answered, e6) = attempt-returned "connection to database failed" _ _ e5 in
        let (migrated, e7) = unless_fatal-returned _ _ e6 in
        let made = make_services-Made c net database (v.new_client opts) _ e7 in
        assemble c net s app opts database sql db address redis opened underlying underlying'
          answered migrated made
