-- ===== src/Tests.antt =====
-- Examples on a concrete runtime.
mod Demo
mod Roles
mod Runs
mod Escrows
mod Windows
mod Withdrawals
mod Executions
mod Vaults
mod Authority
mod Ages
mod Codecs
mod Observing
mod Syncing
mod Approving
