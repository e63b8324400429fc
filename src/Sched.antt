-- ===== src/Sched.antt =====
-- The scheduler.
pub mod Lq
pub mod Rq
pub mod Evq
pub mod Enqueue
pub mod Boot
pub mod Tests
