-- ===== src/Api.antt =====
-- internal/api: the login sessions, the one-time codes, the login throttle and the checks that
-- stand before the handlers.
pub mod Clock
pub mod Sessions
pub mod Handoff
pub mod Ip
pub mod Samples
pub mod Throttle
pub mod Server
pub mod Remote
pub mod Panel
