-- ===== src/Investigate/Guard.antt =====
-- guard_run of runtime/kosmickrisp/investigate.py: one launch of the game under supervision.
pub mod Seen
pub mod Ladder
pub mod Loop
pub mod Verdict
pub mod Run
pub mod Advance
pub mod Passed
pub mod Stopped
pub mod Safety
pub mod Deadline
mod Tests
