-- ===== src/Investigate/Profile.antt =====
-- ProfileTransaction of runtime/kosmickrisp/investigate.py: the game's settings, saves, steam_appid.txt
-- and DLLs are changed for a run, and put back after it.
pub mod Disk
pub mod Config
pub mod Saves
pub mod Transaction
pub mod Restore
pub mod Triples
pub mod Replacing
pub mod Original
pub mod Restoring
pub mod Completing
pub mod Preparing
pub mod Copying
pub mod Changing
pub mod Undone
mod Tests
