-- ===== src/Parser.antt =====
-- ParserSvc: reads the desired state of the hosts from manifests, and serves it.
pub mod Domain
pub mod Config
pub mod Values
pub mod Manifest
pub mod Validator
pub mod Mapper
pub mod Store
pub mod Query
pub mod Http
pub mod Load
pub mod Loader
pub mod App
pub mod Tests
