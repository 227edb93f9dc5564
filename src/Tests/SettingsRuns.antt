-- ===== src/Tests/SettingsRuns.antt =====
-- A configuration, and a directory tree of three directories.
use samanager_backend.Base.{
  ℕ, ◌≡◌, ◌<◌, ◌⊎◌, ◌↔◌, refl, inl, inr, String, [], str_eq, Bool-cases, if◌then◌else◌, arith,
}
use samanager_backend.Base.Errors.{IsOk}
use samanager_backend.Settings.Texts.{trim_space, trim_left, trim_right, is_space, split_comma}
use samanager_backend.Settings.Config.{Env, new_app_config, parse_origins, trim_origins}
use samanager_backend.Settings.Config.Laws.{IsOrigin, IsComplete, new_app_config_iff}

abbrev front_end : String
front_end = "https://app.example"

front_end-IsOrigin : IsOrigin front_end
unfolding trim_space trim_left trim_right is_space
front_end-IsOrigin = record { plain = refl; filled = refl; trimmed = refl }

-- No origin at all.
no_origins : parse_origins " , " ≡ []
unfolding parse_origins split_comma trim_origins trim_space trim_left trim_right is_space
no_origins = refl

abbrev env : Env
env key = if str_eq key "ENVIRONMENT" then "staging" else "set"

new_app_config_iff_example : IsOk (new_app_config env "migrations") ↔ IsComplete env
new_app_config_iff_example = new_app_config_iff env "migrations"

abbrev parent : String → String
parent dir = if str_eq dir "/a/b" then "/a" else if str_eq dir "/a" then "/" else dir

abbrev depth : String → ℕ
depth dir = if str_eq dir "/a/b" then 2 else if str_eq dir "/a" then 1 else 0

shorter : (dir : String) → (parent dir ≡ dir) ⊎ (depth (parent dir) < depth dir)
shorter dir = elim (Bool-cases (str_eq dir "/a/b")) [
  | inl e ↦ inr (rw e (omega arith))
  | inr e ↦ elim (Bool-cases (str_eq dir "/a")) [
    | inl f ↦ inr (rw (e, f) (omega arith))
    | inr f ↦ inl (rw (e, f) refl)
  ]
]
