-- ===== src/Query/Books/Tests.antt =====
-- `book_quality` at concrete snapshots.
use crypto_data_aggregator.Prelude.{◌≡◌, refl, [], ◌∷◌}
use crypto_data_aggregator.Prelude.Int.{pos}
use crypto_data_aggregator.Float.Fixed.{Fixed, fixed, fixed_float}
use crypto_data_aggregator.Rows.{BookSnapshot}
use crypto_data_aggregator.Sources.Samples.{python_fixed, plain_session, kraken_messages}
use crypto_data_aggregator.Sources.Book.Kraken
use crypto_data_aggregator.Query.Books.{no_counts, count_snapshots, issues_of}
use crypto_data_aggregator.Query.Books.Clean.{HasOrderedLevels, kraken-HasOrderedLevels}

-- A crossed book with a bid that stands twice.
abbrev bad_snapshot : BookSnapshot Fixed
bad_snapshot = record {
  ts_ns = pos 1;
  recv_ns = pos 1;
  symbol = "BTC-USD";
  venue = "kraken";
  depth = 5;
  bids = (fixed 9, fixed 1) ∷ (fixed 9, fixed 2) ∷ [];
  asks = (fixed 8, fixed 1) ∷ [];
  ingested_at_ns = pos 1;
}

bad_snapshot_issues :
    issues_of (count_snapshots no_counts (bad_snapshot ∷ []))
    ≡ ("crossed_top", 1) ∷ ("duplicate_price_level", 1) ∷ []
unfolding count_snapshots issues_of
bad_snapshot_issues = refl

kraken-HasOrderedLevels_example :
    HasOrderedLevels
      (count_snapshots no_counts (Kraken.stream_book 5 plain_session kraken_messages).0)
kraken-HasOrderedLevels_example = kraken-HasOrderedLevels 5 plain_session kraken_messages
