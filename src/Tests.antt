-- ===== src/Tests.antt =====
-- Concrete runs of the model: tests of definitions, and the inputs at which the theorems apply.
mod Fence
mod Waiting
mod Journal
mod Loop
mod Ended
mod Projection
mod Machine
mod Ledger
mod Settings
mod Consumer
mod Arguments
mod Outage
mod Command
mod Range
