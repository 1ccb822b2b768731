-- ===== src/Registry.antt =====
-- internal/registry: the entries of the panel, their validation and their store.
pub mod Model
pub mod Problem
pub mod Mqtt
pub mod Refs
pub mod Validate
pub mod Store
pub mod Samples
mod Tests
