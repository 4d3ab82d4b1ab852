-- ===== src/Tests.antt =====
-- Runs of the model on concrete nodes, and of its theorems.
mod Data
mod Runs
mod Calls
mod Outside
mod Pools
mod Staged
mod System
mod Dispatch
mod Diagnostics
mod Services
