-- ===== src/Examples.antt =====
-- Concrete inputs, and the theorems of the other modules applied to them.
mod Plan
mod Samples
mod Groups
mod Nodes
mod Discovered
mod Waits
mod Upgrades
mod Executor
mod Deployed
