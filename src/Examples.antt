-- ===== src/Examples.antt =====
-- The theorems at concrete inputs, one module for each part of the program.
mod Catalog
mod Triggers
mod Config
mod Email
mod Sse
mod Faults
mod Runs
mod Parallel
mod Saturation
mod Cache
mod Checkout
mod Recorder
mod Barrier
mod Report
mod Codec
