-- ===== src/Sources/Fetch/Okx.antt =====
-- `fetch_trades` and `fetch_klines` of cryptodata/sources/okx.py.
use Prim.Native.String.{String}
use crypto_data_aggregator.Prelude.{ℕ, not, Option, none, some, List, [], ◌∷◌, if◌then◌else◌}
use crypto_data_aggregator.Prelude.Int.{ℤ, pos, int_order}
use crypto_data_aggregator.Prelude.Order.{text_order, lt, gt}
use crypto_data_aggregator.Prelude.Dict
use crypto_data_aggregator.Prelude.Keyed.{sorted_by}
use crypto_data_aggregator.Float.{Float, float_order}
use crypto_data_aggregator.Python.{
  Result, ok, ◌>>=◌, Json, null, Python, item, is_truthy, times, over, iterate, last_at, float_item,
  int_item, float_at, int_at, str_get, get_is,
}
use crypto_data_aggregator.Rows.{Trade}
use crypto_data_aggregator.Sources.{get_or_else, empty_list}
use crypto_data_aggregator.Sources.Fetch.{
  Parsed, skip, keep, skip_stopping, collect, Turn, fetch_for, go_on_if, with_native, Kline,
  fetched_trade, value_or,
}

-- `_BAR_REST.get(interval, "1m")`
unfoldable pub bar_of : String → String
unfolding Dict.get
bar_of interval = value_or "1m" (
    Dict.get interval (
      ("1m", "1m")
      ∷ ("5m", "5m")
      ∷ ("15m", "15m")
      ∷ ("1h", "1H")
      ∷ ("4h", "4H")
      ∷ ("1d", "1D")
      ∷ []))

module _ {ℓ} {F : Type ℓ} ⦃fl : Float F⦄ ⦃py : Python F⦄ where
  unfoldable pub trade_of : (ℕ → ℕ) → String → ℤ → ℤ → ℕ → Json F → Result (Parsed (Trade F))
  trade_of made_ns symbol start_ns end_ns i r = do
    ms ← int_item "ts" r
    let ts_ns = times ms 1_000_000
    if lt ts_ns start_ns then ok skip_stopping else if gt ts_ns end_ns then ok skip else (do
      price ← float_item "px" r
      size ← float_item "sz" r
      is_buy ← get_is "side" "buy" r
      id ← str_get "tradeId" r
      ok (keep (fetched_trade made_ns i symbol "okx" ts_ns price size is_buy (some id))))

  -- A turn of the loop; the cursor is `after`, of which the server is told if it is truthy.
  unfoldable pub trades_page :
      (ℕ → Option (Json F) → Result (Json F))
      → (ℕ → ℕ → ℕ)
      → String
      → ℤ
      → ℤ
      → ℕ
      → Json F
      → Turn (Trade F) (Json F)
  unfolding collect trade_of
  trades_page server made_ns symbol start_ns end_ns n after = do
    body ← server n (if is_truthy after then some after else none)
    data_rows ← get_or_else "data" empty_list body
    if is_truthy data_rows
        then (do
          rows ← iterate data_rows
          out ← collect (trade_of (made_ns n) symbol start_ns end_ns) 0 rows
          last ← last_at data_rows >>= item "tradeId"
          go_on_if (not out.1) out.0 last)
        else ok ([], none)

  unfoldable pub fetch_trades :
      (String → ℕ → Option (Json F) → Result (Json F))
      → (ℕ → ℕ → ℕ)
      → Option String
      → String
      → ℤ
      → ℤ
      → Result (List (Trade F))
  unfolding fetch_for trades_page sorted_by
  fetch_trades server made_ns native symbol start_ns end_ns = with_native (ok []) native λ inst. do
    out ← fetch_for (trades_page (server inst) made_ns symbol start_ns end_ns) 2000 0 null
    ok (sorted_by (λ t. t.ts_ns) out)

  unfoldable pub kline_of : ℤ → ℕ → Json F → Result (Parsed (Kline F))
  kline_of start_ms i r = do
    ts_ms ← int_at 0 r
    if lt ts_ms start_ms then ok skip else (do
      o ← float_at 1 r
      h ← float_at 2 r
      l ← float_at 3 r
      c ← float_at 4 r
      v ← float_at 5 r
      ok (
          keep (record {
            ts_ns = times ts_ms 1_000_000;
            «open» = o;
            high = h;
            low = l;
            close = c;
            volume = v;
            trades = pos 0;
          })))

  unfoldable pub klines_page : (ℕ → ℤ → Result (Json F)) → ℤ → ℕ → ℤ → Turn (Kline F) ℤ
  unfolding collect kline_of
  klines_page server start_ms n after_ms = do
    body ← server n after_ms
    data_rows ← get_or_else "data" empty_list body
    if is_truthy data_rows
        then (do
          rows ← iterate data_rows
          out ← collect (kline_of start_ms) 0 rows
          last ← last_at data_rows >>= int_at 0
          go_on_if (gt last start_ms) out.0 last)
        else ok ([], none)

  -- The server is asked for an instrument, a bar and the time that candles come before.
  unfoldable pub fetch_klines :
      (String → String → ℕ → ℤ → Result (Json F))
      → Option String
      → ℤ
      → ℤ
      → String
      → Result (List (Kline F))
  unfolding fetch_for klines_page sorted_by bar_of
  fetch_klines server native start_ns end_ns interval = with_native (ok []) native λ inst. do
    out ←
        fetch_for (klines_page (server inst (bar_of interval)) (over start_ns 1_000_000)) 5000 0
          (over end_ns 1_000_000)
    ok (sorted_by (λ k. k.ts_ns) out)
