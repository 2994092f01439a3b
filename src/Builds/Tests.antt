-- ===== src/Builds/Tests.antt =====
-- A build of two venues, and its theorem.
use Prim.Native.String.{String}
use crypto_data_aggregator.Prelude.{ℕ, ◌+◌, ◌≡◌, refl, none, some, List, [], ◌∷◌, length}
use crypto_data_aggregator.Prelude.Order.{text_order, text_le, nat_order}
use crypto_data_aggregator.Prelude.Keyed.{sorted_by}
use crypto_data_aggregator.Prelude.Sorting.{sorted_set}
use crypto_data_aggregator.Float.Fixed.{
  Fixed, fixed, fixed_float, Fixed-IsFloat, mul_fixed, trunc_fixed,
}
use crypto_data_aggregator.Numerics.Samples.{numerics_fixed}
use crypto_data_aggregator.Trade.{Trade, Bar}
use crypto_data_aggregator.Consolidated.Bars.{contains, is_skipped}
use crypto_data_aggregator.Quality.Coverage.{agg_coverage_of_union, union_of}
use crypto_data_aggregator.Builds.{
  AggregateConfig, Clocks, BuildDiagnostics, Built, build_for, venue_frames_of, bars_in, options_of,
  agg_of, spot_only, collect_trades,
}
use crypto_data_aggregator.Builds.Covered.{build_for-covers, full_marks}

abbrev config : AggregateConfig Fixed
config = record { mad_k = none; min_venues_for_filter = none; stale_recv_lag_ms = none }

abbrev clocks : Clocks
clocks = record { venue_ns = λ v. 7; agg_ns = 8 }

abbrev noted : String → ℕ → ℕ → BuildDiagnostics → String
noted date total agg_count diagnostics = "rebuilt"

abbrev sale : String → ℕ → ℕ → Trade Fixed
sale venue ts px = record {
  ts_ns = ts;
  recv_ns = some (ts + 1_000_000);
  venue = venue;
  price = fixed px;
  size = fixed 1;
}

abbrev stored : List (String × List (List (Trade Fixed)))
stored =
    ("okx", (sale "okx" 2_500_000_000 11 ∷ []) ∷ (sale "okx" 1_500_000_000 10 ∷ []) ∷ [])
    ∷ ("kraken", (sale "kraken" 1_700_000_000 12 ∷ []) ∷ [])
    ∷ []

abbrev collected : List (String × List (Trade Fixed))
collected =
    ("okx", sale "okx" 1_500_000_000 10 ∷ sale "okx" 2_500_000_000 11 ∷ [])
    ∷ ("kraken", sale "kraken" 1_700_000_000 12 ∷ [])
    ∷ []

by_time : collect_trades stored ≡ collected
unfolding collect_trades sorted_by
by_time = refl

abbrev frames : List (String × List (Bar Fixed))
frames = venue_frames_of "BTC-USD" (λ v. 7) collected

abbrev tape : List (Bar Fixed) × BuildDiagnostics
tape = agg_of (options_of "BTC-USD" config) 8 (spot_only collected)

abbrev day : Built Fixed
day = record {
  per_venue_bar_total = bars_in frames;
  agg_count = length tape.0;
  diagnostics = tape.1;
  venue_frames = frames;
  agg_bars = tape.0;
  correction = record {
    table_name = "bars_1s";
    kind = "backfill";
    severity = "info";
    symbol = some "BTC-USD";
    venue = some "agg";
    effective_from_ns = 0;
    effective_to_ns = 0;
    rows_affected = some (bars_in frames + length tape.0);
    note = some "rebuilt";
  };
}

build_for-covers_example :
    agg_coverage_of_union day.agg_bars day.venue_frames
    ≡ full_marks (length (sorted_set (union_of day.venue_frames)))
unfolding collect_trades sorted_by build_for options_of contains text_le is_skipped mul_fixed
    trunc_fixed
build_for-covers_example =
    build_for-covers Fixed-IsFloat noted config clocks "BTC-USD" "1970-01-01" stored day refl
      (refl, (refl, tt)) (((refl, tt), ((refl, tt), tt)), (((refl, tt), tt), tt)) refl
