-- ===== src/Config.antt =====
-- internal/config: the settings schema, the layers and their merge, and the policy.
pub mod Schema
pub mod Sections
pub mod Resolver
pub mod Selective
pub mod Suborg
pub mod Admin
pub mod Policy
pub mod Resolution
pub mod Disabled
pub mod Files
pub mod Validate
pub mod Loader
pub mod Normalize
pub mod AdminCache
pub mod Org
