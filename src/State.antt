-- ===== src/State.antt =====
-- internal/state: the states of the sources, their samples and the events of the browsers.
pub mod Store
pub mod History
pub mod Hub
mod Tests
