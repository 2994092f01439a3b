-- ===== src/Consolidated/Tests.antt =====
-- Runs of the consolidated tape, and its theorems at concrete inputs.
use Prim.Native.String.{String}
use crypto_data_aggregator.Prelude.{
  ℕ, ◌<◌, ◌≡◌, refl, false, none, List, [], ◌∷◌, Perm, arith, All, Ascends, In, here, select, map,
  chain,
}
use crypto_data_aggregator.Prelude.Order.{text_le, pair_le, maximum, minimum}
use crypto_data_aggregator.Prelude.Sorting.{sorted, sorted_set}
use crypto_data_aggregator.Prelude.Bits.{bit}
use crypto_data_aggregator.Prelude.Dict.{get, put, get_list, append_at}
use crypto_data_aggregator.Prelude.Int.{◌+ℤ◌, ◌-ℤ◌}
use crypto_data_aggregator.Consolidated.Median.{median}
use crypto_data_aggregator.Float.Fixed.{
  Fixed, fixed, fixed_float, Fixed-IsFloat, mul_fixed, div_fixed, abs_fixed, sum_fixed,
}
use crypto_data_aggregator.Trade.{Trade, Bar, second_of}
use crypto_data_aggregator.Symbols.{venue_bitmask_index}
use crypto_data_aggregator.Symbols.Bitmask.{bit_number}
use crypto_data_aggregator.Consolidated.Merge.{merge_trades, values}
use crypto_data_aggregator.Consolidated.Merge.Rearrange.{merge_trades-perm}
use crypto_data_aggregator.Consolidated.Merge.Ordering.{LeKey, merge_trades-LeKey}
use crypto_data_aggregator.Prelude.Within.{IsWithin}
use crypto_data_aggregator.Consolidated.Merge.Stable.{merge_trades-IsWithin}
use crypto_data_aggregator.Consolidated.Filter.{robust_filter, threshold}
use crypto_data_aggregator.Consolidated.Filter.Survivors.{robust_filter-survivor}
use crypto_data_aggregator.Consolidated.Bars.{
  Options, contains, is_skipped, bar_of, bucket_loop, build_agg_bars, index_or,
}
use crypto_data_aggregator.Consolidated.Bars.Buckets.{is_eligible}
use crypto_data_aggregator.Consolidated.Bars.Shape.{
  IsAggBar, build_agg_bars-Ascends, build_agg_bars-IsAggBar,
}
use crypto_data_aggregator.Consolidated.Bars.Coverage.{
  IsBarOf, build_agg_bars-select, build_agg_bars-IsBarOf, build_agg_bars-covers,
}
use crypto_data_aggregator.Consolidated.Bars.Mask.{flag, bar_of-mask}

abbrev trade : ℕ → String → ℕ → ℕ → Trade Fixed
trade ts v p s = record { ts_ns = ts; recv_ns = none; venue = v; price = fixed p; size = fixed s }

-- A second with a fat-finger print on one venue, and a later trade.
abbrev on_kraken : List (Trade Fixed)
on_kraken = trade 1_000_000_000 "kraken" 100 2 ∷ trade 1_000_000_300 "kraken" 101 1 ∷ []

abbrev on_okx : List (Trade Fixed)
on_okx = trade 1_000_000_100 "okx" 5000 1 ∷ []

abbrev on_binance : List (Trade Fixed)
on_binance = trade 1_000_000_000 "binance" 99 1 ∷ trade 2_500_000_000 "binance" 102 3 ∷ []

abbrev per_venue : List (String × List (Trade Fixed))
per_venue = ("kraken", on_kraken) ∷ ("okx", on_okx) ∷ ("binance", on_binance) ∷ []

abbrev merged : List (Trade Fixed)
merged =
    trade 1_000_000_000 "binance" 99 1
    ∷ trade 1_000_000_000 "kraken" 100 2
    ∷ trade 1_000_000_100 "okx" 5000 1
    ∷ trade 1_000_000_300 "kraken" 101 1
    ∷ trade 2_500_000_000 "binance" 102 3
    ∷ []

merge_runs : merge_trades per_venue ≡ merged
unfolding merge_trades pair_le text_le
merge_runs = refl

abbrev opts : Options Fixed
opts = record {
  symbol = "BTC-USD";
  venues_index = none;
  mad_k = fixed 5;
  min_venues_for_filter = 3;
  excluded_venues = "gemini" ∷ [];
  stale_recv_lag_ms = none;
  return_diagnostics = false;
}

abbrev brief : Bar Fixed → Fixed × Fixed × Fixed × Fixed × ℕ × ℕ
brief b = (b.open_px, b.high, b.low, b.close, b.trades, b.sources_mask)

-- The fat finger is dropped; the mask of the first second has binance (1) and kraken (2), not okx (4).
bars_run :
    map brief (build_agg_bars opts 7 merged).0
    ≡ (fixed 99, fixed 101, fixed 99, fixed 101, 3, 3)
      ∷ (fixed 102, fixed 102, fixed 102, fixed 102, 1, 1)
      ∷ []
unfolding build_agg_bars robust_filter median threshold bar_of venue_bitmask_index get get_list
    append_at put second_of sorted sorted_set text_le maximum minimum mul_fixed abs_fixed sum_fixed
    div_fixed ◌+ℤ◌ ◌-ℤ◌
bars_run = refl

merge_trades-perm_example : Perm (merge_trades per_venue) (chain (values per_venue))
merge_trades-perm_example = merge_trades-perm per_venue

merge_trades-LeKey_example : Ascends LeKey (merge_trades per_venue)
unfolding pair_le text_le
merge_trades-LeKey_example = merge_trades-LeKey per_venue (ground arith)

merge_trades-IsWithin_example :
    All (λ rows. IsWithin rows (merge_trades per_venue)) (values per_venue)
merge_trades-IsWithin_example = merge_trades-IsWithin per_venue

robust_filter-survivor_example :
    (u : Trade Fixed) × In u (robust_filter (fixed 5) 3 (trade 7 "okx" 5000 1 ∷ on_kraken)).0
robust_filter-survivor_example =
    robust_filter-survivor Fixed-IsFloat (fixed 5) refl 3 (trade 7 "okx" 5000 1) on_kraken

build_agg_bars-Ascends_example :
    Ascends (λ (a b : Bar Fixed). a.ts_ns < b.ts_ns) (build_agg_bars opts 7 merged).0
build_agg_bars-Ascends_example = build_agg_bars-Ascends opts 7 merged

build_agg_bars-IsAggBar_example : All (IsAggBar "BTC-USD") (build_agg_bars opts 7 merged).0
build_agg_bars-IsAggBar_example = build_agg_bars-IsAggBar opts 7 merged

build_agg_bars-select_example :
    build_agg_bars opts 7 (select (is_eligible opts) merged) ≡ build_agg_bars opts 7 merged
build_agg_bars-select_example = build_agg_bars-select opts 7 merged

build_agg_bars-IsBarOf_example :
    All
      (IsBarOf opts 7 (index_or none (bucket_loop opts merged ([], [])).1) merged)
      (build_agg_bars opts 7 merged).0
build_agg_bars-IsBarOf_example = build_agg_bars-IsBarOf opts 7 merged

build_agg_bars-covers_example :
    (b : Bar Fixed) × In b (build_agg_bars opts 7 merged).0 × (b.ts_ns ≡ second_of 1_000_000_000)
unfolding is_skipped text_le
build_agg_bars-covers_example =
    build_agg_bars-covers opts 7 Fixed-IsFloat refl merged (trade 1_000_000_000 "binance" 99 1)
      (here refl) refl

bar_of-mask_example :
    bit
      (bar_of opts
        (venue_bitmask_index ("okx" ∷ "binance" ∷ "kraken" ∷ []))
        7
        0
        (trade 7 "okx" 5000 1)
        on_kraken).sources_mask
      1
    ≡ flag (contains "kraken" ("okx" ∷ "kraken" ∷ "kraken" ∷ []))
unfolding bit_number sorted_set text_le
bar_of-mask_example =
    bar_of-mask opts ("okx" ∷ "binance" ∷ "kraken" ∷ []) 7 0 (trade 7 "okx" 5000 1) on_kraken
      "kraken" 1 refl
