-- ===== src/Pool.antt =====
-- The transaction pool, core/simple_container.go: the pending transactions of each source, and the
-- queue of those that cannot follow yet. Locks, the clock and logging are left out.
pub mod Pending
pub mod Container
pub mod Order
pub mod Valid
pub mod Lowest
pub mod Size
pub mod Timeout
pub mod Lost
mod Tests
