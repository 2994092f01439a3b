-- ===== src/Sources/Fetch/Coinbase.antt =====
-- `fetch_trades` of cryptodata/sources/coinbase.py.
use Prim.Native.String.{String}
use crypto_data_aggregator.Prelude.{ℕ, true, ltb, Option, none, some, List, [], ◌||◌, if◌then◌else◌}
use crypto_data_aggregator.Prelude.Int.{ℤ, int_order}
use crypto_data_aggregator.Prelude.Order.{text_order, lt, eq, gt}
use crypto_data_aggregator.Float.{Float, float_order}
use crypto_data_aggregator.Python.{
  Result, ok, ◌>>=◌, Json, Python, item, is_truthy, iterate, size_of, last_at, float_item, str_get,
  text_of,
}
use crypto_data_aggregator.Rows.{Trade}
use crypto_data_aggregator.Sources.{iso_to_ns}
use crypto_data_aggregator.Sources.Fetch.{
  Parsed, skip, keep, halt, collect, Turn, fetch_while, with_native, fetched_trade,
}

-- `if cursor: params["before"] = cursor`
abbrev pub before_of : Option String → Option String
before_of none = none
before_of (some c) = if eq c "" then none else some c

module _ {ℓ} {F : Type ℓ} ⦃fl : Float F⦄ ⦃py : Python F⦄ where
  unfoldable pub trade_of : (ℕ → ℕ) → String → ℤ → ℤ → ℕ → Json F → Result (Parsed (Trade F))
  trade_of made_ns symbol start_ns end_ns i r = do
    ts_ns ← item "time" r >>= iso_to_ns
    if lt ts_ns start_ns then ok halt else if gt ts_ns end_ns then ok skip else (do
      side ← item "side" r >>= text_of
      price ← float_item "price" r
      size ← float_item "size" r
      id ← str_get "trade_id" r
      ok (
          keep (
            fetched_trade made_ns i symbol "coinbase" ts_ns price size (eq "BUY" (py.upper side))
              (some id))))

  -- A turn of the loop; the cursor is the trade to page from.
  unfoldable pub trades_page :
      (ℕ → Option String → Result (Json F))
      → (ℕ → ℕ → ℕ)
      → String
      → ℤ
      → ℤ
      → ℕ
      → Option String
      → Turn (Trade F) (Option String)
  unfolding collect trade_of
  trades_page server made_ns symbol start_ns end_ns n cursor = do
    listed ← server n (before_of cursor)
    if is_truthy listed
        then (do
          rows ← iterate listed
          out ← collect (trade_of (made_ns n) symbol start_ns end_ns) 0 rows
          size ← size_of listed
          if out.1 || ltb size 1000 then ok (out.0, none) else (do
            last ← last_at listed >>= item "trade_id"
            ok (out.0, some (some (py.str_of last)))))
        else ok ([], none)

  -- On fuel: `while True`.
  unfoldable pub fetch_trades :
      (String → ℕ → Option String → Result (Json F))
      → (ℕ → ℕ → ℕ)
      → Option String
      → String
      → ℤ
      → ℤ
      → ℕ
      → Option (Result (List (Trade F)))
  unfolding fetch_while trades_page
  fetch_trades server made_ns native symbol start_ns end_ns fuel =
      with_native (some (ok [])) native λ id.
        fetch_while (λ cursor. true) (trades_page (server id) made_ns symbol start_ns end_ns) fuel 0
          none
