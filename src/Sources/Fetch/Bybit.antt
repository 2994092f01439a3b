-- ===== src/Sources/Fetch/Bybit.antt =====
-- `fetch_trades`, `fetch_funding` and `fetch_klines` of cryptodata/sources/bybit.py.
use Prim.Native.String.{String}
use crypto_data_aggregator.Prelude.{ℕ, ltb, Option, none, some, List, [], if◌then◌else◌}
use crypto_data_aggregator.Prelude.Int.{ℤ, pos, ◌+ℤ◌, int_order}
use crypto_data_aggregator.Prelude.Order.{text_order, lt}
use crypto_data_aggregator.Float.{Float, float_order}
use crypto_data_aggregator.Python.{
  Result, ok, ◌>>=◌, Json, Python, get_or, item, is_text, is_truthy, over, iterate, at, size_of,
  last_at, float_item, float_at, str_get,
}
use crypto_data_aggregator.Rows.{Trade, Funding}
use crypto_data_aggregator.Sources.{get_or_else, ms_to_ns, empty_list, empty_dict}
use crypto_data_aggregator.Sources.Fetch.{
  Parsed, keep, collect, Turn, fetch_while, with_native, Kline, fetched_trade,
}

module _ {ℓ} {F : Type ℓ} ⦃fl : Float F⦄ ⦃py : Python F⦄ where
  -- `(body.get("result") or {}).get("list") or []`
  unfoldable pub result_list : Json F → Result (Json F)
  result_list body = get_or_else "result" empty_dict body >>= get_or_else "list" empty_list

  unfoldable pub trade_of : (ℕ → ℕ) → String → ℕ → Json F → Result (Parsed (Trade F))
  trade_of made_ns symbol i r = do
    ts_ns ← item "time" r >>= ms_to_ns
    price ← float_item "price" r
    size ← float_item "size" r
    side ← item "side" r
    id ← str_get "execId" r
    ok (
        keep
          (fetched_trade made_ns i symbol "bybit" ts_ns price size (is_text "Buy" side) (some id)))

  -- A turn of the loop; the cursor is `cursor_ns`, which the server is told in ms.
  unfoldable pub trades_page :
      (ℕ → ℤ → Result (Json F)) → (ℕ → ℕ → ℕ) → String → ℕ → ℤ → Turn (Trade F) ℤ
  unfolding collect trade_of result_list
  trades_page server made_ns symbol n cursor_ns = do
    body ← server n (over cursor_ns 1_000_000)
    listed ← result_list body
    if is_truthy listed
        then (do
          rows ← iterate listed
          out ← collect (trade_of (made_ns n) symbol) 0 rows
          size ← size_of listed
          if ltb size 1000 then ok (out.0, none) else (do
            last ← last_at listed >>= item "time"
            ts_ns ← ms_to_ns last
            ok (out.0, some (ts_ns +ℤ pos 1_000_000))))
        else ok ([], none)

  -- On fuel.
  unfoldable pub fetch_trades :
      (String → ℕ → ℤ → Result (Json F))
      → (ℕ → ℕ → ℕ)
      → Option String
      → String
      → ℤ
      → ℤ
      → ℕ
      → Option (Result (List (Trade F)))
  unfolding fetch_while trades_page
  fetch_trades server made_ns native symbol start_ns end_ns fuel =
      with_native (some (ok [])) native λ n.
        fetch_while (λ cursor_ns. lt cursor_ns end_ns) (trades_page (server n) made_ns symbol) fuel
          0 start_ns

  unfoldable pub past_funding_of : (ℕ → ℕ) → String → ℕ → Json F → Result (Parsed (Funding F))
  past_funding_of made_ns symbol i r = do
    ts_ns ← item "fundingRateTimestamp" r >>= ms_to_ns
    rate ← float_item "fundingRate" r
    ok (
        keep (record {
          ts_ns = ts_ns;
          recv_ns = ts_ns;
          symbol = symbol;
          venue = "bybit";
          funding_rate = rate;
          mark_price = none;
          next_ts_ns = none;
          ingested_at_ns = pos (made_ns i);
        }))

  -- The server is asked for a window in ms.
  unfoldable pub fetch_funding :
      (String → ℤ → ℤ → Result (Json F))
      → (ℕ → ℕ)
      → Option String
      → String
      → ℤ
      → ℤ
      → Result (List (Funding F))
  unfolding collect past_funding_of
  fetch_funding server made_ns native symbol start_ns end_ns = with_native (ok []) native λ n. do
    body ← server n (over start_ns 1_000_000) (over end_ns 1_000_000)
    result ← get_or_else "result" empty_dict body
    rows ← get_or "list" empty_list result >>= iterate
    out ← collect (past_funding_of made_ns symbol) 0 rows
    ok out.0

  unfoldable pub kline_of : ℕ → Json F → Result (Parsed (Kline F))
  kline_of i r = do
    ts_ns ← at 0 r >>= ms_to_ns
    o ← float_at 1 r
    h ← float_at 2 r
    l ← float_at 3 r
    c ← float_at 4 r
    v ← float_at 5 r
    ok (
        keep (record {
          ts_ns = ts_ns;
          «open» = o;
          high = h;
          low = l;
          close = c;
          volume = v;
          trades = pos 0;
        }))
