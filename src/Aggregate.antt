-- ===== src/Aggregate.antt =====
-- cryptodata/core/aggregate.py: per-venue 1-second bars, and the legacy combiner of such bars.
pub mod Venue
pub mod Second
mod Tests
