-- ===== src/Escrow.antt =====
-- The escrow: one fixed-destination payment, funded at creation and settled once.
pub mod Create
pub mod Release
pub mod Refund
pub mod Funding
pub mod Settlement
pub mod Deadline
pub mod Open
