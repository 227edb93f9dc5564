-- ===== src/Settings/Config/Laws.antt =====
-- When NewAppConfig returns, and with which origins.
use samanager_backend.Base.{
  ◌≡◌, ◌↔◌, refl, ap, ◌∙◌, String, Bool, true, false, List, [], ◌∷◌, ok, str_eq, ◌||◌, All, arith,
}
use samanager_backend.Base.Errors.{>>=-eq-ok, IsOk}
use samanager_backend.Settings.Texts.{
  trim_space, split_comma, has_comma, join_comma, trim_left, trim_right, atoi,
}
use samanager_backend.Base.Int.{ℤ}
use samanager_backend.Base.{some}
use samanager_backend.Settings.Texts.Split.{split_comma-join_comma}
use samanager_backend.Settings.Config.{
  Env, Required, keep_origin, trim_origins, parse_origins, required, known_environment,
  load_required_config, new_app_config, get_polling_interval, or_sixty,
}

-- A text that stands for an origin: not empty, without a comma, and without space around it.
pub record IsOrigin (o : String) : Type 0 where
  pub plain : has_comma o ≡ false
  pub filled : str_eq o "" ≡ false
  pub trimmed : trim_space o ≡ o

trim_origins-fixed : (origins : List String) → All IsOrigin origins → trim_origins origins ≡ origins
unfolding trim_origins keep_origin
trim_origins-fixed [] all = refl
trim_origins-fixed (o ∷ os) (is_origin, all) =
    rw (is_origin.trimmed, trim_origins-fixed os all, is_origin.filled) refl

plain_parts :
    (origins : List String) → All IsOrigin origins → All (λ o. has_comma o ≡ false) origins
plain_parts [] all = tt
plain_parts (o ∷ os) (is_origin, all) = (is_origin.plain, plain_parts os all)

-- A list of origins that is written with commas between them is what the configuration has.
pub parse_origins-join_comma :
    (origins : List String) → All IsOrigin origins → parse_origins (join_comma origins) ≡ origins
unfolding parse_origins join_comma split_comma trim_origins keep_origin trim_space trim_left
    trim_right
parse_origins-join_comma [] all = refl
parse_origins-join_comma (o ∷ os) all =
    rw (split_comma-join_comma o os (plain_parts (o ∷ os) all)) (trim_origins-fixed (o ∷ os) all)

abbrev pub required_keys : List String
required_keys =
    "DB_URL" ∷ "REDIS_URL" ∷ "PRIVATE_KEY" ∷ "API_SECRET" ∷ "ALLOW_ORIGINS" ∷ "ENVIRONMENT" ∷ []

abbrev pub is_known : String → Bool
is_known environment =
    str_eq environment "dev" || (str_eq environment "staging" || str_eq environment "prod")

module _ (env : Env) where
  abbrev pub IsComplete : Type 0
  IsComplete =
      All (λ key. str_eq (env key) "" ≡ false) required_keys × (is_known (env "ENVIRONMENT") ≡ true)

  required-eq :
      (key value : String)
      → required env key ≡ ok value
      → (str_eq (env key) "" ≡ false) × (env key ≡ value)
  unfolding required
  required-eq key value e = ground arith

  required-set : (key : String) → str_eq (env key) "" ≡ false → required env key ≡ ok (env key)
  unfolding required
  required-set key e = rw (e, required) refl

  known_environment_iff :
      (environment : String)
      → (known_environment env environment ≡ ok tt) ↔ (is_known environment ≡ true)
  unfolding known_environment
  known_environment_iff environment = ground arith

  complete_required : (c : Required) → load_required_config env ≡ ok c → IsComplete
  unfolding load_required_config
  complete_required c e =
      let (dsn, e₁, rest₁) = >>=-eq-ok (required env "DB_URL") _ e in
      let (redis, e₂, rest₂) = >>=-eq-ok (required env "REDIS_URL") _ rest₁ in
      let (private, e₃, rest₃) = >>=-eq-ok (required env "PRIVATE_KEY") _ rest₂ in
      let (secret, e₄, rest₄) = >>=-eq-ok (required env "API_SECRET") _ rest₃ in
      let (origins, e₅, rest₅) = >>=-eq-ok (required env "ALLOW_ORIGINS") _ rest₄ in
      let (environment, e₆, rest₆) = >>=-eq-ok (required env "ENVIRONMENT") _ rest₅ in
      let (_, e₇, last) = >>=-eq-ok (known_environment env environment) _ rest₆ in
      let (set, same) = required-eq "ENVIRONMENT" environment e₆ in
      (
        (
          (required-eq "DB_URL" dsn e₁).0,
          (
            (required-eq "REDIS_URL" redis e₂).0,
            (
              (required-eq "PRIVATE_KEY" private e₃).0,
              (
                (required-eq "API_SECRET" secret e₄).0,
                ((required-eq "ALLOW_ORIGINS" origins e₅).0, (set, tt)),
              ),
            ),
          ),
        ),
        ap is_known same ∙ (known_environment_iff environment).0 e₇,
      )

  complete_loads :
      (default_migrations : String) → IsComplete → IsOk (new_app_config env default_migrations)
  unfolding new_app_config load_required_config
  complete_loads default_migrations
        ((dsn, (redis, (private, (secret, (origins, (environment, _)))))), known) =
      rw
        (
          new_app_config,
          load_required_config,
          required-set "DB_URL" dsn,
          required-set "REDIS_URL" redis,
          required-set "PRIVATE_KEY" private,
          required-set "API_SECRET" secret,
          required-set "ALLOW_ORIGINS" origins,
          required-set "ENVIRONMENT" environment,
          (known_environment_iff (env "ENVIRONMENT")).1 known,
        )
        (_, refl)

  -- NewAppConfig returns exactly with an environment in which the six required variables are set, ALLOW_ORIGINS in every
  -- environment among them, and ENVIRONMENT is one of "dev", "staging" and "prod"; any other ends the process.
  pub new_app_config_iff :
      (default_migrations : String) → IsOk (new_app_config env default_migrations) ↔ IsComplete
  unfolding new_app_config
  new_app_config_iff default_migrations = (
    λ (c, e).
        let (found, e₁, rest) = >>=-eq-ok (load_required_config env) _ e in
        complete_required found e₁,
    complete_loads default_migrations,
  )

module _ (env : Env) where
  -- A POLLING_INTERVAL that is a number is taken as it is.
  pub get_polling_interval-atoi :
      (interval : ℤ)
      → str_eq (env "POLLING_INTERVAL") "" ≡ false
      → atoi (env "POLLING_INTERVAL") ≡ some interval
      → get_polling_interval env ≡ interval
  unfolding get_polling_interval or_sixty
  get_polling_interval-atoi interval filled read = rw (filled, read, or_sixty) refl
