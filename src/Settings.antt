-- ===== src/Settings.antt =====
-- The configuration: its defaults, the allowed network, the configuration file and the options.
pub mod Values
pub mod Bind
pub mod File
pub mod Ranges
pub mod Kept
pub mod Load
pub mod Network
pub mod Options
