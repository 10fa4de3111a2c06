-- ===== src/Runtime.antt =====
-- The runtime of a worker (runtime/).
pub mod TimerQueue
mod Examples
