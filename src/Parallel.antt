-- ===== src/Parallel.antt =====
-- The results of the workers of a run, merged into one (src/benchmarkservice/parallel.py).
pub mod Records
pub mod Merge
pub mod Interleaving
pub mod Sorting
pub mod Outstanding
pub mod Results
pub mod Archive
