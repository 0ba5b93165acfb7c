-- ===== src/Store.antt =====
-- internal/store: the projection of the journal into Postgres. The statements of one ApplyEvent are one
-- transaction: they happen together, or the database stays as it was.
pub mod Projection
pub mod Idempotent
pub mod Agreement
pub mod Reader
pub mod Rows
pub mod Replayed
pub mod Firsts
pub mod CrossCheck
pub mod Again
