-- ===== src/Query.antt =====
-- cryptodata/query/: what readers ask of the stored rows.
pub mod Books
