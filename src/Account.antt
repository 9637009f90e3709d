-- ===== src/Account.antt =====
-- The account database of storage/account: the calls on it, and the journal that undoes them.
pub mod Types
pub mod Object
pub mod Journal
pub mod Calls
pub mod Contract
pub mod Views
pub mod Writes
pub mod Loads
pub mod Undo
pub mod Fields
pub mod Storage
pub mod Code
pub mod Balance
pub mod Suicide
pub mod Creation
pub mod Access
pub mod Answers
pub mod Revisions
pub mod Reverts
pub mod Simulation
pub mod Refinement
pub mod Panics
mod Tests
