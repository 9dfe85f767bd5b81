-- ===== src/Lib.antt =====
-- The Python services of the shop: the recommendation worker, which reads the event streams of the
-- shop and answers with recommendations, and the benchmark service, which configures, starts
-- and divides load on it. The services share state only through key-value buckets and events.
--
-- Kv: a key-value bucket with revisions (`get`, `create`, `update`), as the adapter
-- `_NATSCatalogStore` of src/recommendationservice/nats_events.py presents it. The bucket is a
-- parameter: an interface of operations with the laws of a healthy bucket (Kv/Interface). Between
-- any two steps of the code the other replicas may do whatever they like (`others`), within the
-- hypotheses that a theorem names. Kv/Memory is an implementation that meets the laws.
-- Catalog: src/recommendationservice/catalog_kv.py. Each loop of `max_attempts` rounds is `retry`
-- of Prelude/Results, whose fuel is `max_attempts` itself; a round is one `get` with the branch on
-- its answer. Records are the stored JSON objects; the JSON text is not modelled. `_backoff`
-- only sleeps.
-- Triggers: src/recommendationservice/nats_events.py, the decoding and filtering of a fetched batch,
-- the handler and the settlement of messages. Protocol buffers, the hash and `uuid5` are parameters, and
-- so is whether an acknowledgement and a request for a redelivery go through. Times are microseconds
-- since 1970; times before are not modelled. Which items a consumer still takes from its queue after a
-- failed request has ended it is a parameter; the fetch loop, its tasks and the connection are not
-- modelled. Triggers/CatalogEvents applies catalog events to the catalog, and Triggers/Cache is the
-- cache that the candidates are served from; what other handlers do while one waits for the lock is a
-- parameter, and a refresh is one step.
-- Config: src/benchmarkservice/config.py. Rates and times that the code keeps as floats are natural
-- numbers of thousandths; NaN and finer fractions are not modelled. A worker's spawn rate is kept as
-- a fraction. Python's conversions and text methods are parameters.
-- Email: src/emailservice/nats_worker.py, from the validation of a completed order to the outcome
-- that is published, and the settlement of one delivery. Protocol buffers, SHA-256 and `_stable_id` are parameters; `masked` and `framed` work on
-- texts and on bytes. The fetch loop, the workers over a batch and the connection are not modelled.
-- Sse: src/benchmarkservice/sse.py, the lines of an order stream read into events and orders. Decoding
-- of bytes, stripping and JSON are parameters.
-- Faults: src/benchmarkservice/fault_tolerance.py, the plan of a fault-tolerance run and the
-- controller that scales the services. The clock, the journal and `kubectl` are parameters
-- (Faults/Outside). A wait has one unit of fuel for each millisecond left, which is enough since a
-- pause lasts as long as it was asked to (Faults/Waiting).
-- Runs: src/benchmarkservice/control.py, the lease, the updates of a run, start, reconciliation and
-- stop, and from src/benchmarkservice/job.py `mutate`, `renew_lease`, the verdict on the workers
-- and `finish`; Runs/Barrier is `coordinate_start`, the common start of the workers, as turns of the
-- workers in any order. Twelve attempts are the code's own limit. Kubernetes and the clock are parameters;
-- timestamps that are only shown, artifacts and archives are not modelled.
-- Parallel: src/benchmarkservice/parallel.py, the merge of the workers' files and the unpacking of their
-- archives. A file of records is its list of lines; JSON is a parameter, timestamps are natural
-- numbers, and files that a failed merge leaves behind are not modelled. `heapq.merge` takes one
-- step for each record there is, which is enough since each step takes one (Parallel/Interleaving).
-- Saturation: src/benchmarkservice/saturation.py and the saturation driver of
-- src/benchmarkservice/locustfile.py: the ladder of rates that each worker climbs, its share of a
-- window, the verdict on a rung, and the exchange of progress and decisions over the shared store as
-- a step relation. Floating-point numbers are a parameter of the verdict; the ladder counts whole
-- seconds and thousandths of a request, one unit of fuel for each second, which is enough since a
-- rung lasts at least one. The pauses between submissions and the requests are not modelled.
-- Checkout: the NATS client of src/benchmarkservice/locustfile.py, `NatsAdapter.checkout`, from the
-- submission of an order over the events of its outcome (Checkout/Outcome) to its settlement
-- (Checkout/Settlement and Checkout/Wait). The storefront, the clocks, the streams and the random
-- numbers are a parameter (Checkout/Outside), times are nanoseconds, and a stream is counted until its
-- response is released, which the end of a generator that was never started does not do. Each loop has one unit of fuel for each nanosecond up to its deadline, which is enough since each
-- round takes time: reading an event does, and a pause that begins before the deadline does. An
-- exception of the request for a stream is not modelled: Locust answers a failed request with
-- status 0. The cart and the other requests are not modelled.
-- Recorder: `ArtifactRecorder` of src/benchmarkservice/runtime.py, which all clients of a worker tell of
-- their orders. Each call is one step: a close between the test for `_business` and the lock, which the
-- code takes after it, is not modelled. Recorder/Accounts is the composition with Checkout and Parallel. `str.lower` is a
-- parameter; the metrics clients and the sampling thread are not modelled.
-- Report: src/benchmarkservice/reporting.py, `_fault_phase` and `_fault_convergence`, the verdicts on the
-- faults of a run. Times are milliseconds, and ratios are compared by products, without the rounding of
-- floating-point numbers. The other summaries are not modelled.
-- Prelude: tests, lists, keys and results that the parts share. Examples: runs of the
-- definitions.
--
-- Where nothing is said of it above, fuel is the code's own limit on attempts; all else is structural
-- recursion.
-- The services in other languages, servers, logs, traces and the other reports are not modelled.
pub mod Prelude
pub mod Kv
pub mod Catalog
mod Examples
pub mod Triggers
pub mod Config
pub mod Email
pub mod Sse
pub mod Faults
pub mod Runs
pub mod Parallel
pub mod Saturation
pub mod Checkout
pub mod Recorder
pub mod Report
