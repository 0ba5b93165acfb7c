-- ===== src/Idempotency.antt =====
-- internal/idempotency: the fence around a side-effecting tool.
pub mod Process
pub mod Record
pub mod Key
pub mod Retry
pub mod Store
pub mod Claims
pub mod Guard
pub mod Triple
pub mod Contract
pub mod Quiet
pub mod Waiting
pub mod Claiming
pub mod Rows
pub mod AtMostOnce
pub mod Redis
pub mod Crash
