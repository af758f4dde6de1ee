-- ===== src/Tests.antt =====
-- Sample data, and runs of the models at concrete inputs.
pub mod Samples
mod Snapshotting
mod Routing
mod Warm
mod Members
mod Caching
mod Placing
mod Pointing
mod Domains
mod Publishing
mod Nodes
mod Admitting
mod Policy
mod Canaries
mod Retaining
mod Alarming
mod Metering
