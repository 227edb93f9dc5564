-- ===== src/Http.antt =====
-- The HTTP side: src/domain/error.go, and src/handler with its responses, its guard and its handlers.
pub mod Errors
pub mod Responses
pub mod Guard
pub mod Jobs
