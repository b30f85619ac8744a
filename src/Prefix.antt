-- ===== src/Prefix.antt =====
-- runtime/kosmickrisp/dxvk-prefix.py
pub mod Disk
pub mod Checks
pub mod Status
pub mod Restore
pub mod Install
pub mod Triples
pub mod Recovery
pub mod Undo
mod Tests
