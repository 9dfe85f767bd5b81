-- ===== src/Sse.antt =====
-- src/benchmarkservice/sse.py: the events of an order stream.
pub mod Events
pub mod Frames
pub mod Streams
pub mod Orders
