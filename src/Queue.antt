-- ===== src/Queue.antt =====
-- internal/queue/queue.go: the work queue with delays, retries and redirtied items. A method that
-- holds the lock is one step; a worker's round is two steps, `next_item` and `finish`, between which
-- other steps may come. The tracing spans, the log and the wakeup channel are left out.
pub mod Types
pub mod Items
pub mod Steps
pub mod Weights
pub mod Order
pub mod Consistent
pub mod Workers
pub mod Examples
pub mod Retries
pub mod RetryBound
pub mod Requeued
pub mod PutBack
