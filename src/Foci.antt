-- ===== src/Foci.antt =====
-- The per-pod state machine of internal/foci, with the facts and effects of internal/types.
pub mod Types
pub mod State
pub mod Convert
pub mod Phase
pub mod UnitName
pub mod PhaseRule
pub mod Reduce
pub mod Found
pub mod Invariant
pub mod Identity
pub mod Terminal
pub mod Backoff
pub mod Restarts
pub mod Status
pub mod Examples
