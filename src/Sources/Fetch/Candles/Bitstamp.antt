-- ===== src/Sources/Fetch/Candles/Bitstamp.antt =====
-- `fetch_klines` of cryptodata/sources/bitstamp.py.
use Prim.Native.String.{String}
use crypto_data_aggregator.Prelude.{ℕ, ◌*◌, Option, none, some, List, [], ◌∷◌, if◌then◌else◌}
use crypto_data_aggregator.Prelude.Int.{ℤ, pos, ◌+ℤ◌, int_order}
use crypto_data_aggregator.Prelude.Order.{text_order, lt, gt}
use crypto_data_aggregator.Prelude.Dict
use crypto_data_aggregator.Prelude.Keyed.{sorted_by}
use crypto_data_aggregator.Float.{Float, float_order}
use crypto_data_aggregator.Python.{
  Result, ok, raise, ◌>>=◌, Json, Python, is_truthy, times, over, iterate, last_at, float_item,
  int_item,
}
use crypto_data_aggregator.Sources.{get_or_else, empty_list, empty_dict}
use crypto_data_aggregator.Sources.Fetch.{
  Parsed, keep, collect, Turn, fetch_while, go_on_if, with_native, Kline, value_or,
}

-- `_STEP.get(interval, 60)`
unfoldable pub step_of : String → ℕ
unfolding Dict.get
step_of interval = value_or 60 (
    Dict.get interval
      (("1m", 60) ∷ ("5m", 300) ∷ ("15m", 900) ∷ ("1h", 3600) ∷ ("4h", 14400) ∷ ("1d", 86400) ∷ []))

module _ {ℓ} {F : Type ℓ} ⦃fl : Float F⦄ ⦃py : Python F⦄ where
  unfoldable pub kline_of : ℕ → Json F → Result (Parsed (Kline F))
  kline_of i r = do
    s ← int_item "timestamp" r
    o ← float_item "open" r
    h ← float_item "high" r
    l ← float_item "low" r
    c ← float_item "close" r
    v ← float_item "volume" r
    ok (
        keep (record {
          ts_ns = times s 1_000_000_000;
          «open» = o;
          high = h;
          low = l;
          close = c;
          volume = v;
          trades = pos 0;
        }))

  -- A turn of the loop; the cursor is `cur`, and the server is asked for what lies between two seconds.
  unfoldable pub klines_page : (ℕ → ℤ → ℤ → Result (Json F)) → ℕ → ℤ → ℕ → ℤ → Turn (Kline F) ℤ
  unfolding collect kline_of
  klines_page server step end_s n cur = do
    let limit = cur +ℤ pos (step * 1000)
    body ← server n cur (if int_order.le limit end_s then limit else end_s)
    ohlc ← get_or_else "data" empty_dict body >>= get_or_else "ohlc" empty_list
    if is_truthy ohlc
        then (do
          rows ← iterate ohlc
          out ← collect kline_of 0 rows
          last_ts ← last_at ohlc >>= int_item "timestamp"
          go_on_if (gt last_ts cur) out.0 (last_ts +ℤ pos step))
        else ok ([], none)

  abbrev pub by_time : Option (Result (List (Kline F))) → Option (Result (List (Kline F)))
  by_time none = none
  by_time (some (raise e)) = some (raise e)
  by_time (some (ok out)) = some (ok (sorted_by (λ k. k.ts_ns) out))

  -- On fuel. The server is asked for a pair and a step.
  unfoldable pub fetch_klines :
      (String → ℕ → ℕ → ℤ → ℤ → Result (Json F))
      → Option String
      → ℤ
      → ℤ
      → String
      → ℕ
      → Option (Result (List (Kline F)))
  unfolding fetch_while klines_page step_of sorted_by
  fetch_klines server native start_ns end_ns interval fuel =
      with_native (some (ok [])) native λ pair.
        let end_s = over end_ns 1_000_000_000 in
        let step = step_of interval in
        by_time (
          fetch_while (λ cur. lt cur end_s) (klines_page (server pair step) step end_s) fuel 0
            (over start_ns 1_000_000_000))
