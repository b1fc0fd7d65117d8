-- ===== src/Inventory.antt =====
-- InventorySvc: collects the actual state of the hosts from the enabled sources, and serves it.
pub mod Domain
pub mod Config
pub mod Store
pub mod Sync
pub mod Filter
pub mod Http
pub mod Cadvisor
pub mod Bootstrap
pub mod App
pub mod Tests
