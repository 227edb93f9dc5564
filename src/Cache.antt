-- ===== src/Cache.antt =====
-- src/repository/job_cache.go: the job cache and the job queue in Redis.
pub mod Redis
pub mod Repo
pub mod Laws
pub mod Reads
pub mod Refinement
pub mod Statistics
pub mod Queue
