-- ===== src/Lifecycle.antt =====
-- src/habitat_state/lifecycle.py: the tables, the transactions, and the operations on them.
pub mod States
pub mod Db
pub mod Examples
pub mod Transaction
pub mod Wakes
pub mod ProviderStates
pub mod Effects
pub mod Sorted
pub mod Guards
pub mod Runtime
pub mod Proposals
pub mod Changes
pub mod Authority
pub mod Capabilities
pub mod Claims
pub mod Resolve
pub mod Boot
pub mod Recovery
pub mod Replays
pub mod Inspection
pub mod Activations
pub mod Objectives
