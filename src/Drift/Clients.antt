-- ===== src/Drift/Clients.antt =====
-- DriftDetectorSvc/internal/clients: the three HTTP clients of the detection service.
pub mod Retry
pub mod Parser
pub mod Inventory
pub mod Reconciler
mod Tests
