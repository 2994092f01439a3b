-- ===== src/Quality/Tests.antt =====
-- The checks and the score at concrete inputs.
use crypto_data_aggregator.Prelude.{◌≡◌, refl, true, ◌⊎◌, none, List, [], ◌∷◌, All, false}
use crypto_data_aggregator.Prelude.Int.{◌-ℤ◌}
use crypto_data_aggregator.Prelude.Order.{◌≼◌, text_order, maximum, minimum}
use crypto_data_aggregator.Float.{float_order}
use crypto_data_aggregator.Float.Fixed.{Fixed, fixed, fixed_float, Fixed-IsFloat}
use crypto_data_aggregator.Trade.{Trade}
use crypto_data_aggregator.Consolidated.Bars.{Options, build_agg_bars}
use crypto_data_aggregator.Quality.{
  Issue, major, critical, check_timestamps, issue_if, neighbours, check_bar_timestamps,
  check_bar_ohlc_invariants, score_of, deduct, weight, clamp, grade_for,
}
use crypto_data_aggregator.Quality.Tape.{
  check_bar_timestamps-build_agg_bars, check_bar_ohlc_invariants-build_agg_bars,
}
use crypto_data_aggregator.Quality.Grades.{score_of_insert}

abbrev opts : Options Fixed
opts = record {
  symbol = "BTC-USD";
  venues_index = none;
  mad_k = fixed 5;
  min_venues_for_filter = 3;
  excluded_venues = [];
  stale_recv_lag_ms = none;
  return_diagnostics = false;
}

abbrev tape : List (Trade Fixed)
tape =
    record {
      ts_ns = 1_500_000_000;
      recv_ns = none;
      venue = "okx";
      price = fixed 10;
      size = fixed 1;
    }
    ∷ record {
      ts_ns = 2_500_000_000;
      recv_ns = none;
      venue = "kraken";
      price = fixed 11;
      size = fixed 2;
    }
    ∷ []

disordered :
    check_timestamps {F = Fixed} (2_000_000_000 ∷ 1_000_000_000 ∷ [])
    ≡ record {
      check = "bar.timestamps_out_of_order";
      severity = major;
      count = 1;
      detail = "bar ts_ns not monotonically increasing";
      sample = [];
    }
      ∷ []
unfolding check_timestamps issue_if neighbours
disordered = refl

check_bar_timestamps-build_agg_bars_example :
    check_bar_timestamps (build_agg_bars opts 7 tape).0 ≡ []
check_bar_timestamps-build_agg_bars_example = check_bar_timestamps-build_agg_bars opts 7 tape

check_bar_ohlc_invariants-build_agg_bars_example :
    All
      (λ (i : Issue Fixed). (i.check ≡ "bar.vwap_outside_hl") ⊎ (i.check ≡ "bar.nonpositive_price"))
      (check_bar_ohlc_invariants (build_agg_bars opts 7 tape).0)
check_bar_ohlc_invariants-build_agg_bars_example =
    check_bar_ohlc_invariants-build_agg_bars Fixed-IsFloat opts 7 tape

abbrev gap : Issue Fixed
gap = record { check = "bar.gap"; severity = major; count = 1; detail = ""; sample = [] }

abbrev crossed : Issue Fixed
crossed = record {
  check = "bar.high_below_low";
  severity = critical;
  count = 2;
  detail = "";
  sample = [];
}

abbrev same_score : Fixed → Fixed
same_score x = x

one_gap : score_of same_score (fixed 100) (gap ∷ []) ≡ (fixed 90, "B")
unfolding score_of deduct weight clamp grade_for maximum minimum ◌-ℤ◌
one_gap = refl

score_of_insert_example :
    ((score_of same_score (fixed 100) (gap ∷ crossed ∷ gap ∷ [])).0
      ≼ (score_of same_score (fixed 100) (gap ∷ gap ∷ [])).0)
    × (text_order.le
          (score_of same_score (fixed 100) (gap ∷ gap ∷ [])).1
          (score_of same_score (fixed 100) (gap ∷ crossed ∷ gap ∷ [])).1
        ≡ true)
score_of_insert_example =
    score_of_insert Fixed-IsFloat same_score (λ x y h. h) (fixed 100) (gap ∷ []) crossed (gap ∷ [])
