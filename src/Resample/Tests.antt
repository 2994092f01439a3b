-- ===== src/Resample/Tests.antt =====
-- Bars of seconds in windows of a minute.
use Prim.Native.String.{String}
use crypto_data_aggregator.Prelude.{ℕ, ◌*◌, ◌/◌, ◌≡◌, refl, none, [], ◌∷◌, false, map, All, arith}
use crypto_data_aggregator.Prelude.Order.{text_le, maximum}
use crypto_data_aggregator.Prelude.Dict.{get, put, get_list, append_at}
use crypto_data_aggregator.Float.Fixed.{Fixed, fixed, fixed_float, Fixed-IsFloat}
use crypto_data_aggregator.Trade.{Trade, Bar, second_of}
use crypto_data_aggregator.Consolidated.Bars.{Options, build_agg_bars}
use crypto_data_aggregator.Consolidated.Bars.Shape.{IsAggBar}
use crypto_data_aggregator.Resample.{resample_bars}
use crypto_data_aggregator.Resample.Windows.{resample_bars-IsAggBar}

abbrev minutes : String → ℕ → ℕ
minutes timeframe n = n / 60_000_000_000 * 60_000_000_000

minutes-second_of : (n : ℕ) → second_of (minutes "1m" n) ≡ minutes "1m" n
unfolding second_of
minutes-second_of n = omega arith

abbrev bar_at : ℕ → ℕ → ℕ → Bar Fixed
bar_at sec px mask = record {
  ts_ns = sec * 1_000_000_000;
  symbol = "BTC-USD";
  venue = "agg";
  open_px = fixed px;
  high = fixed px;
  low = fixed px;
  close = fixed px;
  volume = fixed 1;
  vwap = fixed px;
  trades = 2;
  sources_mask = mask;
  ingested_at_ns = 7;
}

-- Two bars of one minute: masks 1 and 2 give the mask 2, not their union.
masks_of_minute :
    map
      (λ b. b.sources_mask)
      (resample_bars "BTC-USD" "agg" minutes "1m" (bar_at 61 10 1 ∷ bar_at 62 11 2 ∷ []))
    ≡ 2 ∷ []
unfolding resample_bars text_le append_at get_list get put maximum
masks_of_minute = refl

abbrev opts : Options Fixed
opts = record {
  symbol = "BTC-USD";
  venues_index = none;
  mad_k = fixed 5;
  min_venues_for_filter = 3;
  excluded_venues = [];
  stale_recv_lag_ms = none;
  return_diagnostics = false;
}

abbrev sale : ℕ → ℕ → Trade Fixed
sale ts px = record { ts_ns = ts; recv_ns = none; venue = "okx"; price = fixed px; size = fixed 1 }

resample_bars-IsAggBar_example : All (IsAggBar "BTC-USD") (
    resample_bars "BTC-USD" "agg" minutes "1m"
      (build_agg_bars opts 7 (sale 61_500_000_000 10 ∷ sale 62_500_000_000 12 ∷ [])).0)
resample_bars-IsAggBar_example =
    resample_bars-IsAggBar Fixed-IsFloat "BTC-USD" minutes "1m" minutes-second_of opts 7
      (sale 61_500_000_000 10 ∷ sale 62_500_000_000 12 ∷ []) refl
