-- ===== src/Asset.antt =====
-- A mint held by a vault: its registration, deposits, and withdrawal limits.
pub mod Register
pub mod Deposit
pub mod Limits
pub mod Outcome
pub mod Policy
pub mod Window
