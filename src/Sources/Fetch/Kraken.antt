-- ===== src/Sources/Fetch/Kraken.antt =====
-- `fetch_trades` and `fetch_klines` of cryptodata/sources/kraken.py.
use Prim.Native.String.{String}
use crypto_data_aggregator.Prelude.{ℕ, ltb, Option, none, some, List, [], ◌∷◌, ◌||◌, if◌then◌else◌}
use crypto_data_aggregator.Prelude.Int.{ℤ, pos, int_order}
use crypto_data_aggregator.Prelude.Order.{text_order, lt, eq, gt}
use crypto_data_aggregator.Prelude.Dict
use crypto_data_aggregator.Float.{Float, float_order}
use crypto_data_aggregator.Python.{
  Result, ok, raise, ◌>>=◌, Json, object, Members, no_members, member, Python, is_text, is_truthy,
  times, over, iterate, at, size_of, float_at, int_at, int_get, attribute_error,
}
use crypto_data_aggregator.Rows.{Trade}
use crypto_data_aggregator.Sources.{get_or_else, empty_list, empty_dict}
use crypto_data_aggregator.Sources.Fetch.{
  Parsed, skip, keep, halt, collect, Turn, fetch_while, go_on_if, with_native, Kline, fetched_trade,
  value_or,
}

-- `next((v for k, v in result.items() if k != "last"), [])`
abbrev pub first_other {ℓ} : {F : Type ℓ} → Members F → Json F
first_other no_members = empty_list
first_other (member k v ms) = if eq k "last" then first_other ms else v

-- `{"1m": 1, ...}.get(interval, 1)`
unfoldable pub minutes_of : String → ℕ
unfolding Dict.get
minutes_of interval = value_or 1 (
    Dict.get interval
      (("1m", 1) ∷ ("5m", 5) ∷ ("15m", 15) ∷ ("1h", 60) ∷ ("4h", 240) ∷ ("1d", 1440) ∷ []))

module _ {ℓ} {F : Type ℓ} ⦃fl : Float F⦄ ⦃py : Python F⦄ where
  abbrev pub listed : Json F → Result (Json F)
  listed (object ms) = ok (first_other ms)
  listed j = raise attribute_error

  -- `str(r[6]) if len(r) > 6 else None`
  unfoldable pub trade_id_of : Json F → Result (Option String)
  trade_id_of r = do
    n ← size_of r
    if ltb 6 n then (at 6 r >>= λ id. ok (some (py.str_of id))) else ok none

  -- `int(float(r[2]) * 1_000_000_000)`
  unfoldable pub row_ts_ns : Json F → Result ℤ
  row_ts_ns r = do
    time ← float_at 2 r
    ok (fl.truncate (fl.mul time (py.float_of_int (pos 1_000_000_000))))

  -- A row `[price, volume, time, side, ord_type, misc, trade_id]`.
  unfoldable pub trade_of : (ℕ → ℕ) → String → ℤ → ℕ → Json F → Result (Parsed (Trade F))
  unfolding trade_id_of row_ts_ns
  trade_of made_ns symbol end_ns i r = do
    ts_ns ← row_ts_ns r
    if gt ts_ns end_ns then ok halt else (do
      side ← at 3 r
      price ← float_at 0 r
      size ← float_at 1 r
      id ← trade_id_of r
      ok (keep (fetched_trade made_ns i symbol "kraken" ts_ns price size (is_text "b" side) id)))

  -- A turn of the loop; the cursor is `since`.
  unfoldable pub trades_page :
      (ℕ → ℤ → Result (Json F)) → (ℕ → ℕ → ℕ) → String → ℤ → ℕ → ℤ → Turn (Trade F) ℤ
  unfolding collect trade_of
  trades_page server made_ns symbol end_ns n since = do
    body ← server n since
    result ← get_or_else "result" empty_dict body
    trade_list ← listed result
    last_cursor ← int_get "last" since result
    if is_truthy trade_list
        then (do
          rows ← iterate trade_list
          out ← collect (trade_of (made_ns n) symbol end_ns) 0 rows
          go_on_if (gt last_cursor since) out.0 last_cursor)
        else ok ([], none)

  -- On fuel; the server is asked for the native ticker.
  unfoldable pub fetch_trades :
      (String → ℕ → ℤ → Result (Json F))
      → (ℕ → ℕ → ℕ)
      → Option String
      → String
      → ℤ
      → ℤ
      → ℕ
      → Option (Result (List (Trade F)))
  unfolding fetch_while trades_page
  fetch_trades server made_ns native symbol start_ns end_ns fuel =
      with_native (some (ok [])) native λ pair.
        fetch_while (λ since. lt since end_ns) (trades_page (server pair) made_ns symbol end_ns)
          fuel 0 start_ns

  -- `int(r[7]) if len(r) > 7 else 0`
  unfoldable pub count_of : Json F → Result ℤ
  count_of r = do n ← size_of r; if ltb 7 n then int_at 7 r else ok (pos 0)

  unfoldable pub kline_of : ℤ → ℤ → ℕ → Json F → Result (Parsed (Kline F))
  unfolding count_of
  kline_of start_ns end_ns i r = do
    s ← int_at 0 r
    let ts_ns = times s 1_000_000_000
    if lt ts_ns start_ns || gt ts_ns end_ns then ok skip else (do
      o ← float_at 1 r
      h ← float_at 2 r
      l ← float_at 3 r
      c ← float_at 4 r
      v ← float_at 6 r
      n ← count_of r
      ok (
          keep (record {
            ts_ns = ts_ns;
            «open» = o;
            high = h;
            low = l;
            close = c;
            volume = v;
            trades = n;
          })))

  -- The server is asked for a ticker, a number of minutes and a second to start from.
  unfoldable pub fetch_klines :
      (String → ℕ → ℤ → Result (Json F)) → Option String → ℤ → ℤ → String → Result (List (Kline F))
  unfolding collect kline_of minutes_of
  fetch_klines server native start_ns end_ns interval = with_native (ok []) native λ pair. do
    body ← server pair (minutes_of interval) (over start_ns 1_000_000_000)
    result ← get_or_else "result" empty_dict body
    rows ← listed result >>= iterate
    out ← collect (kline_of start_ns end_ns) 0 rows
    ok out.0
