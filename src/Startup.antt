-- ===== src/Startup.antt =====
-- Package main (main.go): putting the parts together.
pub mod Sources
pub mod Rosters
pub mod Identity
pub mod Advertised
pub mod Groups
pub mod Joins
pub mod Services
pub mod Readiness
pub mod Wiring
pub mod EndToEnd
