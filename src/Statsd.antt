-- ===== src/Statsd.antt =====
-- The metrics of the StatsD tracer: utils/statsd/src/metrics.rs.
pub mod Interval
pub mod Tags
pub mod State
pub mod Pads
pub mod Pipelines
pub mod Worker
mod Tests
