-- ===== src/Kv.antt =====
-- The key-value bucket of NATS JetStream as the Python services use it: `get`, `create` and a
-- compare-and-set `update`. The broker is not part of the repository, so a bucket is a parameter.
mod Memory
pub use Memory.{MemoryState, empty_state, write, memory, memory-IsHealthy}
mod Interface
pub use Interface.{Entry, Reply, done, refused, broken, Bucket, Written, IsHealthy, World}
mod Calls
pub use Calls.{KeepsRevisions, arrive}
unfoldable pub use Calls.{get, create, update}
mod Quiet
pub use Quiet.{still, Rewritten, create_quiet, update_quiet}
