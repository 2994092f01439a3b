-- ===== src/Consolidated.antt =====
-- cryptodata/core/consolidated.py: the cross-venue consolidated tape, one child for each of its functions.
pub mod Merge
pub mod Median
pub mod Filter
pub mod Bars
mod Tests
