-- ===== src/Mq.antt =====
-- mqsvc: what happens to one message of a trigger, from the broker's delivery to its settlement.
pub mod Types
mod Metrics
mod Worker
mod Rabbit
mod Statuses
mod Tests
