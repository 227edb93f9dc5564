-- ===== src/Tests.antt =====
-- Concrete stores, codecs and networks, and the theorems applied to them.
pub mod Sameness
pub mod Stores
pub mod Samples
mod CacheRuns
pub mod JobRuns
mod OpRuns
pub mod ChainRuns
pub mod SchedulerRuns
pub mod WaitRuns
mod DemoRuns
mod SettingsRuns
mod PasskeyRuns
pub mod HttpRuns
pub mod SafetyRuns
mod LoopRuns
mod RaceRuns
mod RouteRuns
pub mod LifeRuns
mod CommandRuns
