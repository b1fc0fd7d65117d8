-- ===== src/Platform.antt =====
-- The services together: what one serves over HTTP is what another's client reads.
pub mod Desired
pub mod Actual
pub mod Health
pub mod Start
pub mod Tests
