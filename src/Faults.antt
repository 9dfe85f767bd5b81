-- ===== src/Faults.antt =====
-- src/benchmarkservice/fault_tolerance.py: a benchmark run that scales services down and up again.
pub mod Outside
pub mod Controller
pub mod Waiting
pub mod Restore
pub mod Plan
pub mod Schedule
