-- ===== src/Config.antt =====
-- Package config (config/config.go).
pub mod Text
pub mod Csv
pub mod Result
pub mod Address
pub mod Flags
pub mod Declared
pub mod Parts
pub mod Ttls
pub mod Checks
pub mod Load
pub mod Tee
pub mod Numbers
pub mod BeaconPart
pub mod Accepted
pub mod Loaded
pub mod Precedence
