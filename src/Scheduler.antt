-- ===== src/Scheduler.antt =====
-- scheduler/scheduler.go: the queues that limit how many requests of a route are handled at once,
-- and filters/scheduler/fifo.go, the filter that makes a request wait in one.
pub mod Preprocessor
pub mod Fifo
pub mod Pool
pub mod Registry
pub mod Filter
