-- ===== src/Tasks.antt =====
-- src/tasks: the background tasks: their table, the queue over it, the workers and the delivery.
pub mod Store
pub mod Queue
pub mod Delivery
pub mod WorkerManager
mod Lifecycle
mod Dequeue
mod Outcome
mod Tests
