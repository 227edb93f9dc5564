-- ===== src/Domain.antt =====
-- src/domain/: the job of the database and of the services, and when a job is due.
pub mod Job
pub mod Schedule
