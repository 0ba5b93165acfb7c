-- ===== src/Replay.antt =====
-- internal/replay: the fold that rebuilds a run's state from its events.
pub mod State
pub mod Clone
pub mod Transitions
pub mod Derived
pub mod Fold
pub mod Inversions
pub mod Outcomes
pub mod Gapless
pub mod Induction
pub mod Steps
pub mod Calls
pub mod Actions
pub mod Redelivery
pub mod Source
pub mod Terminal
pub mod Messages
pub mod Ended
pub mod Seen
pub mod Prefix
pub mod Finish
