-- ===== src/Benchmark.antt =====
-- runtime/kosmickrisp/benchmark.py: the conditions of a comparison, the order of its jobs, and the loop
-- that runs them.
pub mod Jobs
pub mod Rotation
pub mod Analysis
mod Reasons
mod Complete
mod Executing
mod Tests
