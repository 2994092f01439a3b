-- ===== src/Quality/Checks/Tests.antt =====
-- The theorems on the checks and on the scorecards at concrete inputs.
use crypto_data_aggregator.Prelude.{
  ℕ, ◌*◌, ◌≡◌, ◌≢◌, refl, Option, none, some, List, [], ◌∷◌, Perm, map, arith, leb, length, select,
  if◌then◌else◌, All, Ascends,
}
use crypto_data_aggregator.Prelude.Int.{pos, negsuc}
use crypto_data_aggregator.Prelude.Order.{maximum, nat_order, text_order}
use crypto_data_aggregator.Prelude.Keyed.{sorted_by, length-sorted_by}
use crypto_data_aggregator.Prelude.Groups.{counted}
use crypto_data_aggregator.Float.Fixed.{Fixed, fixed, fixed_float}
use crypto_data_aggregator.Numerics.Samples.{numerics_fixed}
use crypto_data_aggregator.Trade.{Bar}
use crypto_data_aggregator.Symbols.{Index}
use crypto_data_aggregator.Python.{Json, integer, decimal, text}
use crypto_data_aggregator.Sources.Samples.{python_fixed, list, dict}
use crypto_data_aggregator.Sources.Registry.{session_of, stream_trades, bitfinex_spot}
use crypto_data_aggregator.Quality.{Issue}
use crypto_data_aggregator.Quality.Gaps.{check_flatline, close_column, largest_bin, run_ids}
use crypto_data_aggregator.Quality.Gaps.Runs.{check_flatline-longest_flat, longest_flat}
use crypto_data_aggregator.Quality.Prints.{check_trade_invariants}
use crypto_data_aggregator.Quality.Prints.Streamed.{check_trade_invariants-stream_trades}
use crypto_data_aggregator.Quality.Checks.{Frames, all_issues, run_checks}
use crypto_data_aggregator.Quality.Checks.Sorted.{run_checks-sorted, NotBefore}
use crypto_data_aggregator.Quality.Report.{Slice, score_day}
use crypto_data_aggregator.Quality.Report.Counts.{score_day-counts, is_critical}

abbrev bar_at : ℕ → ℕ → Bar Fixed
bar_at sec close = record {
  ts_ns = sec * 1_000_000_000;
  symbol = "BTC-USD";
  venue = "okx";
  open_px = fixed 10;
  high = fixed 12;
  low = fixed 9;
  close = fixed close;
  volume = fixed 1;
  vwap = fixed 10;
  trades = 1;
  sources_mask = 0;
  ingested_at_ns = 7;
}

abbrev flat_bars : List (Bar Fixed)
flat_bars = bar_at 5 11 ∷ bar_at 1 10 ∷ bar_at 3 11 ∷ bar_at 4 11 ∷ bar_at 9 13 ∷ []

-- In order of time the closes are 10, 11, 11, 11 and 13.
run_of_three : largest_bin (run_ids (close_column (sorted_by (λ b. b.ts_ns) flat_bars))) ≡ 3
unfolding largest_bin run_ids sorted_by maximum
run_of_three = refl

check_flatline-longest_flat_example : map (λ i. i.count) (check_flatline 3 flat_bars) ≡ (
    if leb 3 (longest_flat (close_column (sorted_by (λ b. b.ts_ns) flat_bars)))
    then longest_flat (close_column (sorted_by (λ b. b.ts_ns) flat_bars)) ∷ []
    else [])
check_flatline-longest_flat_example =
    check_flatline-longest_flat 3 flat_bars (omega arith)
      (length-sorted_by (λ b. b.ts_ns) flat_bars)

abbrev venue_index : Index
venue_index = record { by_canonical = []; reverse = (("bitfinex", "BTCUSD"), "BTC-USD") ∷ [] }

abbrev frames_sent : List (Option (Json Fixed))
frames_sent =
    some (
      dict (
        ("event", text "subscribed")
        ∷ ("channel", text "trades")
        ∷ ("symbol", text "tBTCUSD")
        ∷ ("chanId", integer (pos 7))
        ∷ []))
    ∷ some (
        list (
          integer (pos 7)
          ∷ text "te"
          ∷ list (integer (pos 11) ∷ integer (pos 5) ∷ decimal (negsuc 3) ∷ decimal (fixed 9) ∷ [])
          ∷ []))
    ∷ []

check_trade_invariants-stream_trades_example :
    All
      (λ (i : Issue Fixed). i.check ≢ "trade.bad_side")
      (check_trade_invariants
        (stream_trades bitfinex_spot
          (session_of python_fixed venue_index bitfinex_spot (λ n. n) (λ n i. n))
          frames_sent).0)
check_trade_invariants-stream_trades_example =
    check_trade_invariants-stream_trades venue_index (λ n. n) (λ n i. n) bitfinex_spot frames_sent

abbrev some_frames : Frames Fixed
some_frames = record {
  bars = some flat_bars;
  trades = some [];
  quotes = none;
  agg_bars = none;
  per_venue_bars = some (("okx", flat_bars) ∷ []);
}

run_checks-sorted_example :
    Perm (run_checks some_frames) (all_issues some_frames)
    × Ascends NotBefore (run_checks some_frames)
run_checks-sorted_example = run_checks-sorted some_frames

abbrev day_slice : Slice Fixed
day_slice = record {
  bars_of = λ v. flat_bars;
  venues = "agg" ∷ "okx" ∷ [];
  trades = [];
  quotes = [];
}

score_day-counts_example :
    ((score_day "BTC-USD" "agg" "1970-01-01" day_slice 7).n_issues
      ≡ length (score_day "BTC-USD" "agg" "1970-01-01" day_slice 7).issues)
    × (counted (score_day "BTC-USD" "agg" "1970-01-01" day_slice 7).severity_counts
        ≡ (score_day "BTC-USD" "agg" "1970-01-01" day_slice 7).n_issues)
    × ((score_day "BTC-USD" "agg" "1970-01-01" day_slice 7).n_critical
        ≡ length (
            select
              (λ i. is_critical i.severity)
              (score_day "BTC-USD" "agg" "1970-01-01" day_slice 7).issues))
score_day-counts_example = score_day-counts "BTC-USD" "agg" "1970-01-01" day_slice 7
