-- ===== src/Gameplay.antt =====
-- runtime/kosmickrisp/gameplay.py: the state machines that watch a game. `Startup` is the class
-- StartupSession, `Session` the class Session, `Focus` the class FocusRecovery.
pub mod Screen
pub mod Startup
pub mod Session
pub mod Focus
pub mod Controller
pub mod Checkpoint
pub mod Launch
mod Tests
mod DriveTests
