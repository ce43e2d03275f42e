-- ===== src/Observer.antt =====
-- The observer (observer/src): it reads the program's events from transaction logs into a database,
-- and reports whether it is up to date.
pub mod Fallible
pub mod Text
pub mod Events
pub mod Store
pub mod Logs
pub mod Alerts
pub mod Metrics
pub mod Process
pub mod Reconcile
pub mod Sync
pub mod Deployment
pub mod Health
