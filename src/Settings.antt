-- ===== src/Settings.antt =====
-- The configuration, src/app/config.go, and the search for the project's root, src/utils/utils.go.
pub mod Texts
pub mod Config
pub mod Root
pub mod Wiring
