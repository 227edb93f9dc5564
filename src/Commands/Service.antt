-- ===== src/Commands/Service.antt =====
-- cmd/samanager/main.go, from its beginning to the start of the workers; Application/Lifecycle has the rest.
use samanager_backend.Base.{String, ◌<>◌, Error, wrapped, Reply, ok, err, str_eq, if◌then◌else◌}
use samanager_backend.Network.{Network}
use samanager_backend.Erc4337.Hash.{Hashing}
use samanager_backend.Execution.Service.{Ecdsa}
use samanager_backend.Settings.Config.{Env, AppConfig, new_app_config}
use samanager_backend.Scheduler.World.{Services}
use samanager_backend.Application.{Drivers, Outcome, exited, returned, Application, new_application}
use samanager_backend.Application.Lifecycle.{Program, launch}

abbrev app_name : String
app_name = "SAManager Backend"

abbrev app_version : String
app_version = "0.1.5"

-- The fields of `swagger.SwaggerInfo` that main sets.
pub record SwaggerInfo : Type 0 where
  pub title : String
  pub version : String
  pub description : String
  pub host : String

abbrev pub swagger_info : AppConfig → SwaggerInfo
swagger_info c = record {
  title = app_name <> " API";
  version = app_version;
  description = app_name <> " with automation service and webauthn authentication";
  host = c.host;
}

-- http on a developer's machine, https elsewhere
unfoldable pub swagger_url : AppConfig → String
swagger_url c =
    if str_eq c.required.environment "dev"
    then ("http://" <> c.host) <> "/swagger/index.html"
    else ("https://" <> c.host) <> "/swagger/index.html"

module _ (v : Drivers) (n : Network) (h : Hashing) (e : Ecdsa) where
  -- `exits` is log.Fatal; `stops` is the return of main after an error of NewApplication.
  pub data Begun : Type 0 where
    exits stops : Error → Begun
    serves : Application v n h e → Begun

  begun : Outcome (Application v n h e) × v.State → Begun × v.State
  begun (exited x, s) = (exits x, s)
  begun (returned (err x), s) = (stops x, s)
  begun (returned (ok app), s) = (serves app, s)

  with_key : AppConfig → Reply e.Key → n.State → v.State → Begun × v.State
  unfolding begun
  with_key c (err x) net s = (exits x, s)
  with_key c (ok key) net s = begun (new_application v n h e c net s)

  with_config : Reply AppConfig → n.State → v.State → Begun × v.State
  unfolding with_key
  with_config (err x) net s = (exits x, s)
  with_config (ok c) net s = with_key c (e.hex_to_ecdsa c.required.private_key) net s

  -- The environment is that after the .env file was loaded, if there is one; that it cannot be loaded is fatal.
  unfoldable pub main : Reply Env → String → n.State → v.State → Begun × v.State
  unfolding with_config
  main (err x) default_migrations net s = (exits (wrapped "Error loading .env file" x), s)
  main (ok env) default_migrations net s = with_config (new_app_config env default_migrations) net s

-- The service that is launched then, on a cache and a table.
module _ (p : Services) (h : Hashing) (v : Drivers) (e : Ecdsa) where
  abbrev pub launched :
      (app : Application v p.network h e)
      → p.redis.State
      → p.database.State
      → Program p h app.signer
  launched app cache table =
      launch p h app.signer app.config.required.environment
        (record { cache = cache; table = table; chains = app.chains })
