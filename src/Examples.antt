-- ===== src/Examples.antt =====
-- The theorems applied: a cluster in memory, an agent, and the runs of the operator on them.
pub mod Agents
mod Equality
pub mod Cluster
pub mod Runs
pub mod Steps
pub mod Written
pub mod Views
pub mod Builds
pub mod Admissions
mod Starts
mod Files
mod Frames
