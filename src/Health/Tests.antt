-- ===== src/Health/Tests.antt =====
-- A run of the tracker, and its theorems at concrete inputs.
use crypto_data_aggregator.Prelude.{ℕ, ◌≡◌, refl, false, some, List, [], ◌∷◌}
use crypto_data_aggregator.Prelude.Order.{text_order, text_le, pair_order, pair_le}
use crypto_data_aggregator.Prelude.Dict.{get, put}
use crypto_data_aggregator.Float.Fixed.{Fixed, fixed, fixed_float, mul_fixed, div_fixed}
use crypto_data_aggregator.Health.{
  StreamKey, Windows, Status, Limits, window_or_new, record_all, rate_per_sec, status_of, evaluate,
  evaluate_loop,
}
use crypto_data_aggregator.Health.Recorded.{latest, times_of, record_all-latest}

abbrev some_stream : StreamKey
some_stream = ("kraken", ("BTC-USD", "trades"))

abbrev some_windows : Windows
some_windows = (some_stream, 1_000_000_000 ∷ 2_000_000_000 ∷ []) ∷ []

abbrev some_limits : Limits Fixed
some_limits = record { recent_window_s = 1; baseline_window_s = 10; threshold_ratio = fixed 1 }

abbrev some_clock : StreamKey → ℕ × ℕ
some_clock key = (9_000_000_000, 9_000_000_000)

-- Two messages in ten seconds and none in the last one.
abbrev quiet : Status Fixed
quiet = record {
  recent_per_s = fixed 0;
  baseline_per_s = div_fixed (fixed 2) (fixed 10);
  up = false;
}

quiet_stream : get some_stream (evaluate some_limits some_clock some_windows []).0 ≡ some quiet
unfolding evaluate evaluate_loop status_of rate_per_sec mul_fixed div_fixed get put text_le pair_le
quiet_stream = refl

abbrev some_messages : List (StreamKey × ℕ)
some_messages =
    (some_stream, 1_000_000_000)
    ∷ (("okx", ("BTC-USD", "trades")), 2_000_000_000)
    ∷ (some_stream, 3_000_000_000)
    ∷ []

record_all-latest_example :
    window_or_new (get some_stream (record_all some_messages []))
    ≡ latest 20_000 (times_of some_stream some_messages)
record_all-latest_example = record_all-latest some_stream some_messages

both_times : latest 20_000 (times_of some_stream some_messages) ≡ 1_000_000_000 ∷ 3_000_000_000 ∷ []
unfolding text_le pair_le
both_times = refl
