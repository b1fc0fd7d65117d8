-- ===== src/Drift.antt =====
-- DriftDetectorSvc: compares the desired with the actual state of the hosts, and asks the reconciler
-- to repair what differs.
pub mod Domain
pub mod Config
pub mod Clients
pub mod Http
pub mod Cooldown
pub mod Detectors
pub mod Registry
pub mod Detection
pub mod App
pub mod Tests
