-- ===== src/Email.antt =====
-- src/emailservice/nats_worker.py: the confirmation of completed orders.
pub mod Outcome
pub mod Identity
pub mod Delivery
pub mod Repeats
pub mod Mask
