-- ===== src/Tests.antt =====
-- Runs of the definitions at concrete inputs.
mod Sample
mod Cluster
mod Safe
mod Builders
mod Passes
mod Stored
mod Settled
mod Held
mod Full
mod Served
mod Published
mod Files
mod Commands
