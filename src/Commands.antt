-- ===== src/Commands.antt =====
-- The programs under cmd/, but for the demonstration scheduler. How a program ends is a value.
pub mod ExecuteJob
pub mod SendOp
pub mod Service
pub mod Worker
