-- ===== src/Aggregate/Tests.antt =====
-- Runs of the two bar builders, and their theorems at concrete inputs.
use Prim.Native.String.{String}
use crypto_data_aggregator.Prelude.{
  ℕ, ◌<◌, ◌≡◌, refl, some, none, List, [], ◌∷◌, arith, Ascends, here, total_of, map,
}
use crypto_data_aggregator.Prelude.Order.{text_le, maximum, minimum}
use crypto_data_aggregator.Prelude.Int.{pos, ◌+ℤ◌, ◌-ℤ◌}
use crypto_data_aggregator.Prelude.Sorting.{sorted, sorted_set}
use crypto_data_aggregator.Float.Fixed.{
  Fixed, fixed, fixed_float, Fixed-IsFloat, mul_fixed, div_fixed, abs_fixed, sum_fixed,
}
use crypto_data_aggregator.Consolidated.Median.{median}
use crypto_data_aggregator.Symbols.{venue_bitmask_index}
use crypto_data_aggregator.Prelude.Dict.{get}
use crypto_data_aggregator.Trade.{Trade, Bar, second_of}
use crypto_data_aggregator.Aggregate.Venue.{bars_from_trades}
use crypto_data_aggregator.Aggregate.Venue.Stream.{
  bars_from_trades-trade_count, bars_from_trades-Ascends,
}
use crypto_data_aggregator.Aggregate.Second.{is_used, aggregate_second}
use crypto_data_aggregator.Aggregate.Second.Outcome.{aggregate_second-some}

abbrev tick : ℕ → ℕ → ℕ → Trade Fixed
tick ts p s = record {
  ts_ns = ts;
  recv_ns = none;
  venue = "kraken";
  price = fixed p;
  size = fixed s;
}

abbrev ticks : List (Trade Fixed)
ticks = tick 1_000_000_000 100 2 ∷ tick 1_900_000_000 97 2 ∷ tick 4_000_000_001 103 1 ∷ []

abbrev brief : Bar Fixed → ℕ × Fixed × Fixed × Fixed × Fixed × Fixed × ℕ
brief b = (b.ts_ns, b.open_px, b.high, b.low, b.close, b.vwap, b.trades)

venue_bars_run :
    map brief (bars_from_trades "BTC-USD" "kraken" 7 ticks)
    ≡ (1_000_000_000, fixed 100, fixed 100, fixed 97, fixed 97, pos 985_000, 2)
      ∷ (4_000_000_000, fixed 103, fixed 103, fixed 103, fixed 103, fixed 103, 1)
      ∷ []
unfolding bars_from_trades second_of mul_fixed div_fixed ◌+ℤ◌
venue_bars_run = refl

bars_from_trades-trade_count_example :
    total_of (map (λ b. b.trades) (bars_from_trades "BTC-USD" "kraken" 7 ticks)) ≡ 3
bars_from_trades-trade_count_example = bars_from_trades-trade_count "BTC-USD" "kraken" 7 ticks

bars_from_trades-Ascends_example :
    Ascends (λ (a b : Bar Fixed). a.ts_ns < b.ts_ns) (bars_from_trades "BTC-USD" "kraken" 7 ticks)
bars_from_trades-Ascends_example = bars_from_trades-Ascends "BTC-USD" "kraken" 7 ticks (omega arith)

abbrev venue_bar : String → ℕ → ℕ → Bar Fixed
venue_bar v c s = record {
  ts_ns = 1_000_000_000;
  symbol = "BTC-USD";
  venue = v;
  open_px = fixed c;
  high = fixed c;
  low = fixed c;
  close = fixed c;
  volume = fixed s;
  vwap = fixed c;
  trades = 4;
  sources_mask = 0;
  ingested_at_ns = 7;
}

abbrev venue_bars : List (Bar Fixed)
venue_bars =
    venue_bar "kraken" 100 2
    ∷ venue_bar "okx" 101 2
    ∷ venue_bar "binance" 99 1
    ∷ venue_bar "gemini" 900 1
    ∷ []

abbrev combined : Bar Fixed
combined = record {
  ts_ns = 1_000_000_000;
  symbol = "BTC-USD";
  venue = "agg";
  open_px = pos 1_002_000;
  high = fixed 101;
  low = fixed 99;
  close = pos 1_002_000;
  volume = fixed 5;
  vwap = pos 1_002_000;
  trades = 12;
  sources_mask = 13;
  ingested_at_ns = 7;
}

-- The fourth venue's close is an outlier: its bit (2) is missing from the mask 1 + 4 + 8.
second_runs : aggregate_second (fixed 5) none [] 7 venue_bars ≡ some combined
unfolding aggregate_second median venue_bitmask_index get sorted sorted_set text_le maximum minimum
    mul_fixed div_fixed abs_fixed sum_fixed ◌+ℤ◌ ◌-ℤ◌
second_runs = refl

aggregate_second-some_example :
    (a : Bar Fixed) × (aggregate_second (fixed 5) none [] 7 venue_bars ≡ some a)
unfolding is_used
aggregate_second-some_example =
    aggregate_second-some none [] 7 Fixed-IsFloat (fixed 5) refl venue_bars
      (venue_bar "kraken" 100 2) (here refl) refl
