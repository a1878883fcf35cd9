-- ===== src/Windows.antt =====
-- src/windows: the collectors of a Windows host.
pub mod Runner
pub mod Live
pub mod Snapshot
pub mod Readiness
pub mod Service
