-- ===== src/Settings/Config.antt =====
-- src/app/config.go. The environment is a function, which has the empty text for a variable that is not set. `err` is
-- log.Fatalf, which ends the process; the migrations' default path, made from the project's root, is an argument.
pub mod Laws
use samanager_backend.Base.{
  ℕ, String, ◌<>◌, Bool, true, false, not, List, [], ◌∷◌, Option, none, some, failure, Reply, ok,
  err, Done, str_eq, ◌&&◌, if◌then◌else◌,
}
use samanager_backend.Base.Errors.{◌>>=◌}
use samanager_backend.Base.Int.{ℤ, pos}
use samanager_backend.Settings.Texts.{trim_space, split_comma, trim_0x, atoi}

abbrev pub Env : Type 0
Env = String → String

-- The configuration that is required, and the whole.
pub record Required : Type 0 where
  pub environment : String
  pub dsn : String
  pub redis_url : String
  pub private_key : String
  pub api_secret : String
  pub allow_origins : List String

pub record AppConfig : Type 0 where
  pub required : Required
  pub log_level : String
  pub port : String
  pub host : String
  pub polling_interval : ℤ
  pub migration_path : String
  pub rp_display_name : String
  pub rp_id : String
  pub rp_origins : List String
  pub sepolia_rpc_url : String
  pub arbitrum_sepolia_rpc_url : String
  pub base_sepolia_rpc_url : String
  pub optimism_sepolia_rpc_url : String
  pub polygon_amoy_rpc_url : String
  pub arbitrum_rpc_url : String
  pub base_rpc_url : String

-- Before the optional values are loaded; each is set by load_optional_config.
abbrev bare_config : Required → AppConfig
bare_config required = record {
  required = required;
  log_level = "";
  port = "";
  host = "";
  polling_interval = pos 0;
  migration_path = "";
  rp_display_name = "";
  rp_id = "";
  rp_origins = [];
  sepolia_rpc_url = "";
  arbitrum_sepolia_rpc_url = "";
  base_sepolia_rpc_url = "";
  optimism_sepolia_rpc_url = "";
  polygon_amoy_rpc_url = "";
  arbitrum_rpc_url = "";
  base_rpc_url = "";
}

keep_origin : String → List String → List String
keep_origin origin origins = if str_eq origin "" then origins else origin ∷ origins

unfoldable pub trim_origins : List String → List String
unfolding keep_origin
trim_origins [] = []
trim_origins (origin ∷ origins) = keep_origin (trim_space origin) (trim_origins origins)

-- The origins of a text that separates them by commas.
unfoldable pub parse_origins : String → List String
unfolding trim_origins
parse_origins text = trim_origins (split_comma text)

module _ (env : Env) where
  unfoldable pub required : String → Reply String
  required key =
      if str_eq (env key) ""
      then err (failure (("REQUIRED: " <> key) <> " not set in environment"))
      else ok (env key)

  unfoldable pub known_environment : String → Reply Done
  known_environment environment =
      if not (str_eq environment "dev")
        && (not (str_eq environment "staging") && not (str_eq environment "prod"))
      then err (failure "REQUIRED: ENVIRONMENT must be one of: dev, staging, prod")
      else ok tt

  unfoldable pub load_required_config : Reply Required
  load_required_config = do
    dsn ← required "DB_URL"
    redis_url ← required "REDIS_URL"
    private_key ← required "PRIVATE_KEY"
    api_secret ← required "API_SECRET"
    allow_origins ← required "ALLOW_ORIGINS"
    environment ← required "ENVIRONMENT"
    known ← known_environment environment
    ok (record {
      environment = environment;
      dsn = dsn;
      redis_url = redis_url;
      private_key = trim_0x private_key;
      api_secret = api_secret;
      allow_origins = parse_origins allow_origins;
    })

  unfoldable pub get_env_with_default : String → String → String
  get_env_with_default key default_value = if str_eq (env key) "" then default_value else env key

  or_sixty : Option ℤ → ℤ
  or_sixty none = pos 60
  or_sixty (some parsed) = parsed

  unfoldable pub get_polling_interval : ℤ
  unfolding or_sixty
  get_polling_interval =
      if str_eq (env "POLLING_INTERVAL") ""
      then pos 60
      else or_sixty (atoi (env "POLLING_INTERVAL"))

  -- The branches of the environments all choose the same host.
  unfoldable pub load_host_config : String → String
  load_host_config port = if str_eq (env "HOST") "" then "localhost:" <> port else env "HOST"

  unfoldable pub load_webauthn_origins : String → List String
  load_webauthn_origins port =
      if str_eq (env "WEBAUTHN_RP_ORIGINS") ""
      then ("http://localhost:" <> port) ∷ []
      else parse_origins (env "WEBAUTHN_RP_ORIGINS")

  unfoldable pub load_webauthn_config : AppConfig → AppConfig
  load_webauthn_config config = record config {
    rp_display_name = get_env_with_default "WEBAUTHN_RP_DISPLAY_NAME" "SAManager Passkey";
    rp_id = get_env_with_default "WEBAUTHN_RP_ID" "localhost";
    rp_origins = load_webauthn_origins config.port;
  }

  unfoldable pub load_rpc_config : AppConfig → AppConfig
  load_rpc_config config = record config {
    sepolia_rpc_url =
        get_env_with_default "SEPOLIA_RPC_URL" "https://ethereum-sepolia-rpc.publicnode.com";
    arbitrum_sepolia_rpc_url =
        get_env_with_default "ARBITRUM_SEPOLIA_RPC_URL"
          "https://arbitrum-sepolia-rpc.publicnode.com";
    base_sepolia_rpc_url =
        get_env_with_default "BASE_SEPOLIA_RPC_URL" "https://base-sepolia-rpc.publicnode.com";
    optimism_sepolia_rpc_url =
        get_env_with_default "OPTIMISM_SEPOLIA_RPC_URL"
          "https://optimism-sepolia-rpc.publicnode.com";
    polygon_amoy_rpc_url =
        get_env_with_default "POLYGON_AMOY_RPC_URL" "https://polygon-amoy-rpc.publicnode.com";
    arbitrum_rpc_url =
        get_env_with_default "ARBITRUM_RPC_URL" "https://arbitrum-one-rpc.publicnode.com";
    base_rpc_url = get_env_with_default "BASE_RPC_URL" "https://base-rpc.publicnode.com";
  }

  unfoldable pub load_optional_config : String → Required → AppConfig
  load_optional_config default_migrations required =
      let port = get_env_with_default "PORT" "8080" in
      load_rpc_config (
        load_webauthn_config (record (bare_config required) {
          port = port;
          host = load_host_config port;
          log_level = get_env_with_default "LOG_LEVEL" "debug";
          polling_interval = get_polling_interval;
          migration_path = get_env_with_default "MIGRATION_PATH" default_migrations;
        }))

  unfoldable pub new_app_config : String → Reply AppConfig
  new_app_config default_migrations = do
    required ← load_required_config
    ok (load_optional_config default_migrations required)
