-- ===== src/Quality/Checks.antt =====
-- `run_checks` of cryptodata/quality/checks.py: every check that applies to what is given, and the order
-- of the issues.
pub mod Sorted
mod Tests
use Prim.Native.String.{String}
use crypto_data_aggregator.Prelude.{ℕ, Option, none, some, List, [], ◌∷◌, ◌++◌}
use crypto_data_aggregator.Prelude.Int.{ℤ, sub_ℕ, int_order}
use crypto_data_aggregator.Prelude.Order.{text_order, pair_order}
use crypto_data_aggregator.Prelude.Keyed.{sorted_by}
use crypto_data_aggregator.Float.{Float}
use crypto_data_aggregator.Numerics.{Numerics}
use crypto_data_aggregator.Trade.{Bar}
use crypto_data_aggregator.Rows.{Trade, Quote}
use crypto_data_aggregator.Quality.{
  Issue, Severity, info, minor, major, critical, check_bar_ohlc_invariants, check_bar_timestamps,
}
use crypto_data_aggregator.Quality.Gaps.{default_limits, check_bar_gaps, check_flatline}
use crypto_data_aggregator.Quality.Prints.{check_trade_invariants}
use crypto_data_aggregator.Quality.Quotes.{check_quote_invariants}
use crypto_data_aggregator.Quality.Venues.{
  check_agg_within_venue_range, check_cross_venue_dispersion,
}

-- The keyword arguments; `none` is `None`.
pub record Frames {ℓ} (F : Type ℓ) : Type ℓ where
  pub bars : Option (List (Bar F))
  pub trades : Option (List (Trade F))
  pub quotes : Option (List (Quote F))
  pub agg_bars : Option (List (Bar F))
  pub per_venue_bars : Option (List (String × List (Bar F)))

-- `int(severity)`
unfoldable pub rank_of : Severity → ℕ
rank_of info = 0
rank_of minor = 1
rank_of major = 2
rank_of critical = 3

module _ {ℓ} {F : Type ℓ} where
  -- `(-int(i.severity), i.check)`
  abbrev pub issue_key : Issue F → ℤ × String
  issue_key i = (sub_ℕ 0 (rank_of i.severity), i.check)

module _ {ℓ} {F : Type ℓ} ⦃fl : Float F⦄ ⦃nm : Numerics F⦄ where
  unfoldable pub bar_issues : Option (List (Bar F)) → List (Issue F)
  bar_issues none = []
  bar_issues (some []) = []
  bar_issues (some (b ∷ bars)) =
      check_bar_ohlc_invariants (b ∷ bars)
      ++ check_bar_timestamps (b ∷ bars)
      ++ check_bar_gaps default_limits (b ∷ bars)
      ++ check_flatline 120 (b ∷ bars)

  unfoldable pub trade_issues : Option (List (Trade F)) → List (Issue F)
  trade_issues none = []
  trade_issues (some []) = []
  trade_issues (some (t ∷ trades)) = check_trade_invariants (t ∷ trades)

  unfoldable pub quote_issues : Option (List (Quote F)) → List (Issue F)
  quote_issues none = []
  quote_issues (some []) = []
  quote_issues (some (q ∷ quotes)) = check_quote_invariants (q ∷ quotes)

  -- The last two tests: an empty dict counts as none.
  unfoldable pub range_issues :
      Option (List (Bar F)) → Option (List (String × List (Bar F))) → List (Issue F)
  range_issues (some agg) (some (v ∷ venues)) = check_agg_within_venue_range agg (v ∷ venues)
  range_issues _ _ = []

  unfoldable pub venue_issues : Option (List (String × List (Bar F))) → List (Issue F)
  venue_issues none = []
  venue_issues (some []) = []
  venue_issues (some (v ∷ venues)) = check_cross_venue_dispersion (fl.of_decimal 50 0) (v ∷ venues)

  -- `issues` before it is sorted.
  unfoldable pub all_issues : Frames F → List (Issue F)
  unfolding bar_issues trade_issues quote_issues range_issues venue_issues
  all_issues frames =
      bar_issues frames.bars
      ++ trade_issues frames.trades
      ++ quote_issues frames.quotes
      ++ range_issues frames.agg_bars frames.per_venue_bars
      ++ venue_issues frames.per_venue_bars

  unfoldable pub run_checks : Frames F → List (Issue F)
  unfolding all_issues
  run_checks frames = sorted_by issue_key (all_issues frames)
