-- ===== src/Saturation.antt =====
-- A saturation run: the ladder of rates that every worker climbs, its share of each window, and the
-- decision that the workers take together on each rung (src/benchmarkservice/saturation.py and the
-- saturation driver of src/benchmarkservice/locustfile.py).
pub mod Ladder
pub mod Ordinals
pub mod Evaluation
pub mod Decision
pub mod Goodput
pub mod Coordination
mod Tables
pub mod Invariant
pub mod Agreement
