-- ===== src/Sources/Fetch/Bitfinex.antt =====
-- `fetch_trades` and `fetch_klines` of cryptodata/sources/bitfinex.py.
use Prim.Native.String.{String}
use crypto_data_aggregator.Prelude.{ℕ, leb, Option, none, some, List, [], ◌∷◌, ◌&&◌, if◌then◌else◌}
use crypto_data_aggregator.Prelude.Int.{ℤ, pos, ◌+ℤ◌, int_order}
use crypto_data_aggregator.Prelude.Order.{text_order, gt}
use crypto_data_aggregator.Prelude.Dict
use crypto_data_aggregator.Prelude.Keyed.{sorted_by}
use crypto_data_aggregator.Float.{Float, nought, float_order}
use crypto_data_aggregator.Python.{
  Result, ok, ◌>>=◌, Json, Python, is_truthy, times, over, iterate, at, size_of, last_at, float_at,
  int_at,
}
use crypto_data_aggregator.Rows.{Trade}
use crypto_data_aggregator.Sources.Fetch.{
  Parsed, keep, halt, collect, Turn, fetch_for, go_on_if, with_native, Kline, fetched_trade,
  value_or,
}

-- `_TF.get(interval, "1m")`
unfoldable pub time_frame : String → String
unfolding Dict.get
time_frame interval = value_or "1m" (
    Dict.get interval (
      ("1m", "1m")
      ∷ ("5m", "5m")
      ∷ ("15m", "15m")
      ∷ ("1h", "1h")
      ∷ ("6h", "6h")
      ∷ ("1d", "1D")
      ∷ []))

module _ {ℓ} {F : Type ℓ} ⦃fl : Float F⦄ ⦃py : Python F⦄ where
  -- A row `[id, mts, amount, price]`.
  unfoldable pub trade_of : (ℕ → ℕ) → String → ℤ → ℕ → Json F → Result (Parsed (Trade F))
  trade_of made_ns symbol end_ns i r = do
    ms ← int_at 1 r
    let ts_ns = times ms 1_000_000
    if gt ts_ns end_ns then ok halt else (do
      amount ← float_at 2 r
      price ← float_at 3 r
      id ← at 0 r
      ok (
          keep (
            fetched_trade made_ns i symbol "bitfinex" ts_ns price (fl.magnitude amount)
              (gt amount nought) (some (py.str_of id)))))

  -- A turn of a loop; the cursor is `cur`, and `k` the place of the time in a row.
  unfoldable pub page_of {κ} :
      {B : Type κ}
      → (ℕ → ℤ → Result (Json F))
      → ℕ
      → (ℕ → ℕ → Json F → Result (Parsed B))
      → ℕ
      → ℤ
      → Turn B ℤ
  unfolding collect
  page_of server k parse n cur = do
    listed ← server n cur
    if is_truthy listed
        then (do
          rows ← iterate listed
          out ← collect (parse n) 0 rows
          last ← last_at listed >>= int_at k
          size ← size_of listed
          go_on_if (gt (last +ℤ pos 1) cur && leb 10_000 size) out.0 (last +ℤ pos 1))
        else ok ([], none)

  unfoldable pub fetch_trades :
      (String → ℕ → ℤ → Result (Json F))
      → (ℕ → ℕ → ℕ)
      → Option String
      → String
      → ℤ
      → ℤ
      → Result (List (Trade F))
  unfolding fetch_for page_of trade_of sorted_by
  fetch_trades server made_ns native symbol start_ns end_ns = with_native (ok []) native λ t. do
    out ←
        fetch_for (page_of (server t) 1 (λ n. trade_of (made_ns n) symbol end_ns)) 2000 0
          (over start_ns 1_000_000)
    ok (sorted_by (λ t. t.ts_ns) out)

  -- A row `[mts, open, close, high, low, volume]`.
  unfoldable pub kline_of : ℤ → ℕ → Json F → Result (Parsed (Kline F))
  kline_of end_ns i r = do
    ms ← int_at 0 r
    let ts_ns = times ms 1_000_000
    if gt ts_ns end_ns then ok halt else (do
      o ← float_at 1 r
      c ← float_at 2 r
      h ← float_at 3 r
      l ← float_at 4 r
      v ← float_at 5 r
      ok (
          keep (record {
            ts_ns = ts_ns;
            «open» = o;
            high = h;
            low = l;
            close = c;
            volume = v;
            trades = pos 0;
          })))

  -- The server is asked for a ticker and a time frame.
  unfoldable pub fetch_klines :
      (String → String → ℕ → ℤ → Result (Json F))
      → Option String
      → ℤ
      → ℤ
      → String
      → Result (List (Kline F))
  unfolding fetch_for page_of kline_of sorted_by time_frame
  fetch_klines server native start_ns end_ns interval = with_native (ok []) native λ t. do
    out ←
        fetch_for (page_of (server t (time_frame interval)) 0 (λ n. kline_of end_ns)) 5000 0
          (over start_ns 1_000_000)
    ok (sorted_by (λ k. k.ts_ns) out)
