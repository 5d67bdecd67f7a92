-- ===== src/Tests.antt =====
-- Runs of the model at concrete data, and the theorems applied to them.
mod Data
mod Lifecycle
mod Work
mod Approvals
mod Runs
mod Events
mod Automation
mod Successor
mod Restore
mod Wake
