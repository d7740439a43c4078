-- ===== src/Tests.antt =====
-- Runs of the model on concrete inputs, and instances of the theorems.
pub mod Pools
mod Tables
mod Traces
mod Reports
mod Analyses
mod Frees
mod Allocations
mod Reallocations
mod Leaks
mod Hooks
