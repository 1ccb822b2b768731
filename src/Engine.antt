-- ===== src/Engine.antt =====
-- internal/engine: the parameters, the rendering, the runs and the schedule of the entries.
pub mod Params
pub mod Render
pub mod Executor
pub mod Scheduler
pub mod Subscriber
mod Tests
