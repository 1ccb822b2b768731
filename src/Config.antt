-- ===== src/Config.antt =====
-- internal/config: the password and the secrets.
pub mod Password
pub mod Secrets
pub mod Settings
pub mod Samples
mod Tests
