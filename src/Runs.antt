-- ===== src/Runs.antt =====
-- src/benchmarkservice/control.py and the finalisation of src/benchmarkservice/job.py: the runs of
-- the benchmark and the lease that lets one of them be active, in the shared bucket.
pub mod Records
pub mod Lease
pub mod Exclusion
pub mod Release
pub mod Quiet
pub mod Failure
pub mod Barrier
pub mod Finish
pub mod Updates
pub mod Manager
