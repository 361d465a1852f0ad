-- ===== src/Store.antt =====
-- The durable store of jobs, runs, occurrences and events: internal/store. A method is a function
-- of the database that returns its result and the database that the transaction leaves.
pub mod State
pub mod EffectKind
pub mod PauseReason
pub mod Schema
pub mod Table
pub mod Spec
pub mod Classify
pub mod Runs
pub mod Lease
pub mod Claims
pub mod Ends
pub mod Provisioning
pub mod Expiry
pub mod Receipts
pub mod Jobs
pub mod Queries
pub mod Occurrences
pub mod Creation
pub mod Admission
pub mod Trace
pub mod Tests
