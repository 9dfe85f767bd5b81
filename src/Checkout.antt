-- ===== src/Checkout.antt =====
-- One order of the load generator's NATS client, from its submission over the events of the order to
-- its settlement (src/benchmarkservice/locustfile.py, `NatsAdapter`).
pub mod Outside
pub mod Context
pub mod Reconnect
pub mod Outcome
pub mod Settlement
pub mod Wait
