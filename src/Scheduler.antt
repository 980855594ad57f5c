-- ===== src/Scheduler.antt =====
-- include/controller/scheduler.h: jobs, and the parts of scheduler.c.
pub mod Job
pub mod Fair
pub mod Jobs
pub mod Queue
pub mod Preview
