-- ===== src/Investigate.antt =====
-- runtime/kosmickrisp/investigate.py
pub mod Guard
pub mod Campaign
pub mod Sampling
pub mod Tailing
mod Tests
pub mod Profile
