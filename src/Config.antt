-- ===== src/Config.antt =====
-- src/benchmarkservice/config.py: a benchmark's configuration and its division among workers.
pub mod Values
pub mod Settings
pub mod Request
pub mod Bounds
pub mod Shares
pub mod Remainder
