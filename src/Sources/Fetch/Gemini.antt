-- ===== src/Sources/Fetch/Gemini.antt =====
-- `fetch_klines` of cryptodata/sources/gemini.py.
use Prim.Native.String.{String}
use crypto_data_aggregator.Prelude.{ℕ, Option, List, [], ◌∷◌, ◌||◌, if◌then◌else◌}
use crypto_data_aggregator.Prelude.Int.{ℤ, pos, int_order}
use crypto_data_aggregator.Prelude.Order.{text_order, lt, gt}
use crypto_data_aggregator.Prelude.Dict
use crypto_data_aggregator.Prelude.Keyed.{sorted_by}
use crypto_data_aggregator.Float.{Float, float_order}
use crypto_data_aggregator.Python.{
  Result, ok, ◌>>=◌, Json, Python, times, iterate, float_at, int_at,
}
use crypto_data_aggregator.Sources.Fetch.{Parsed, skip, keep, collect, with_native, Kline, value_or}

-- `_TF.get(interval, "1m")`
unfoldable pub time_frame : String → String
unfolding Dict.get
time_frame interval = value_or "1m" (
    Dict.get interval (
      ("1m", "1m")
      ∷ ("5m", "5m")
      ∷ ("15m", "15m")
      ∷ ("1h", "1hr")
      ∷ ("6h", "6hr")
      ∷ ("1d", "1day")
      ∷ []))

module _ {ℓ} {F : Type ℓ} ⦃fl : Float F⦄ ⦃py : Python F⦄ where
  -- A row `[timeMs, open, high, low, close, volume]`.
  unfoldable pub kline_of : ℤ → ℤ → ℕ → Json F → Result (Parsed (Kline F))
  kline_of start_ns end_ns i r = do
    ms ← int_at 0 r
    let ts_ns = times ms 1_000_000
    if lt ts_ns start_ns || gt ts_ns end_ns then ok skip else (do
      o ← float_at 1 r
      h ← float_at 2 r
      l ← float_at 3 r
      c ← float_at 4 r
      v ← float_at 5 r
      ok (
          keep (record {
            ts_ns = ts_ns;
            «open» = o;
            high = h;
            low = l;
            close = c;
            volume = v;
            trades = pos 0;
          })))

  unfoldable pub fetch_klines :
      (String → String → Result (Json F)) → Option String → ℤ → ℤ → String → Result (List (Kline F))
  unfolding collect kline_of sorted_by time_frame
  fetch_klines server native start_ns end_ns interval = with_native (ok []) native λ t. do
    rows ← server t (time_frame interval) >>= iterate
    out ← collect (kline_of start_ns end_ns) 0 rows
    ok (sorted_by (λ k. k.ts_ns) out.0)
