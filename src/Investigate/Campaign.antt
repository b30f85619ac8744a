-- ===== src/Investigate/Campaign.antt =====
-- The campaign of runtime/kosmickrisp/investigate.py: a sequence of guarded runs.
pub mod Evidence
pub mod Plan
pub mod Loop
pub mod Steps
pub mod Complete
pub mod Run
pub mod Resume
pub mod Launches
pub mod Held
pub mod Limits
mod Tests
