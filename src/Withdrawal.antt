-- ===== src/Withdrawal.antt =====
-- Outflows of a vault: instant withdrawals, and timelocked requests with their execution and
-- cancellation.
pub mod Window
pub mod Instant
pub mod Request
pub mod Execute
pub mod Cancel
pub mod Capacity
pub mod Execution
pub mod Lifecycle
pub mod Outflow
pub mod Routes
pub mod Checks
pub mod Closed
pub mod Open
