-- ===== src/Sources/Fetch/Candles/Coinbase.antt =====
-- `fetch_klines` of cryptodata/sources/coinbase.py.
use Prim.Native.String.{String}
use crypto_data_aggregator.Prelude.{ℕ, ◌*◌, Option, some, List, [], ◌∷◌, if◌then◌else◌}
use crypto_data_aggregator.Prelude.Int.{ℤ, pos, ◌+ℤ◌, int_order}
use crypto_data_aggregator.Prelude.Order.{text_order, lt}
use crypto_data_aggregator.Prelude.Dict
use crypto_data_aggregator.Float.{Float, float_order}
use crypto_data_aggregator.Python.{
  Result, ok, ◌>>=◌, Json, Python, times, iterate, float_at, int_at,
}
use crypto_data_aggregator.Sources.Fetch.{
  Parsed, keep, collect, Turn, fetch_while, with_native, Kline, value_or,
}

-- `{"1m": 60, ...}.get(interval, 60)`
unfoldable pub granularity_of : String → ℕ
unfolding Dict.get
granularity_of interval = value_or 60 (
    Dict.get interval (("1m", 60) ∷ ("5m", 300) ∷ ("15m", 900) ∷ ("1h", 3600) ∷ ("1d", 86400) ∷ []))

-- `min(cur + step_ns, end_ns)`
abbrev pub stop_of : ℕ → ℤ → ℤ → ℤ
stop_of step_ns end_ns cur =
    if int_order.le (cur +ℤ pos step_ns) end_ns then cur +ℤ pos step_ns else end_ns

module _ {ℓ} {F : Type ℓ} ⦃fl : Float F⦄ ⦃py : Python F⦄ where
  unfoldable pub kline_of : ℕ → Json F → Result (Parsed (Kline F))
  kline_of i r = do
    s ← int_at 0 r
    l ← float_at 1 r
    h ← float_at 2 r
    o ← float_at 3 r
    c ← float_at 4 r
    v ← float_at 5 r
    ok (
        keep (record {
          ts_ns = times s 1_000_000_000;
          «open» = o;
          high = h;
          low = l;
          close = c;
          volume = v;
          trades = pos 0;
        }))

  -- A turn of the loop; the cursor is `cur`, and the server is asked for what lies between two times.
  unfoldable pub klines_page : (ℕ → ℤ → ℤ → Result (Json F)) → ℕ → ℤ → ℕ → ℤ → Turn (Kline F) ℤ
  unfolding collect kline_of
  klines_page server step_ns end_ns n cur = do
    rows ← server n cur (stop_of step_ns end_ns cur) >>= iterate
    out ← collect kline_of 0 rows
    ok (out.0, some (stop_of step_ns end_ns cur))

  -- On fuel. The server is asked for a product and a granularity.
  unfoldable pub fetch_klines :
      (String → ℕ → ℕ → ℤ → ℤ → Result (Json F))
      → Option String
      → ℤ
      → ℤ
      → String
      → ℕ
      → Option (Result (List (Kline F)))
  unfolding fetch_while klines_page granularity_of
  fetch_klines server native start_ns end_ns interval fuel = with_native (some (ok [])) native λ id.
      let granularity = granularity_of interval in
      fetch_while (λ cur. lt cur end_ns)
        (klines_page (server id granularity) (granularity * 300 * 1_000_000_000) end_ns) fuel 0
        start_ns
