-- ===== src/Tests.antt =====
-- Runs of the models at concrete inputs.
mod Values
mod Configs
mod Starts
mod Limits
mod Nacks
mod Paths
mod Ingest
