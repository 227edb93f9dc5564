-- ===== src/Jobs.antt =====
-- src/repository/job_repo.go and src/service/job.go: the jobs table. The service passes each call on to
-- the repository and logs it.
pub mod Database
pub mod Repo
pub mod Service
pub mod Laws
