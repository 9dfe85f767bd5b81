-- ===== src/Report.antt =====
-- The report of a fault-tolerance run (src/benchmarkservice/reporting.py).
pub mod Spans
pub mod Convergence
pub mod Verdicts
pub mod Baselines
pub mod Recovery
