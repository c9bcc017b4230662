-- ===== src/PodStore.antt =====
-- node/podstore.go: the pods of one virtual node. A method is one step: what it does under the locks,
-- with the atomic counters and the signal to the aggregator that follow. A pod that the code copies
-- (DeepCopy) is a value; a pod that it stores by its pointer is taken as the value at that time.
pub mod Types
pub mod Registry
pub mod Status
pub mod Restarts
pub mod Queries
pub mod Edits
pub mod Consistent
pub mod Batch
pub mod Calls
pub mod Registrations
pub mod Reach
pub mod Admit
pub mod Recreated
pub mod Backoff
pub mod Examples
pub mod Containers
