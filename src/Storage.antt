-- ===== src/Storage.antt =====
-- cryptodata/storage/ and its client cryptodata/core/writer.py: from rows to files.
pub mod Schemas
pub mod Writer
mod Tests
