-- ===== src/Sources/Fetch/Bitstamp.antt =====
-- `fetch_trades` of cryptodata/sources/bitstamp.py.
use Prim.Native.String.{String}
use crypto_data_aggregator.Prelude.{ℕ, Option, some, List, [], ◌||◌, if◌then◌else◌}
use crypto_data_aggregator.Prelude.Int.{ℤ, pos, int_order}
use crypto_data_aggregator.Prelude.Order.{text_order, lt, eq, gt}
use crypto_data_aggregator.Prelude.Keyed.{sorted_by}
use crypto_data_aggregator.Float.{Float, float_order}
use crypto_data_aggregator.Python.{
  Result, ok, ◌>>=◌, Json, Python, times, iterate, float_item, int_item, str_get, int_get,
}
use crypto_data_aggregator.Rows.{Trade}
use crypto_data_aggregator.Sources.Fetch.{Parsed, skip, keep, collect, with_native, fetched_trade}

module _ {ℓ} {F : Type ℓ} ⦃fl : Float F⦄ ⦃py : Python F⦄ where
  unfoldable pub trade_of : (ℕ → ℕ) → String → ℤ → ℤ → ℕ → Json F → Result (Parsed (Trade F))
  trade_of made_ns symbol start_ns end_ns i r = do
    s ← int_item "date" r
    let ts_ns = times s 1_000_000_000
    if lt ts_ns start_ns || gt ts_ns end_ns then ok skip else (do
      price ← float_item "price" r
      size ← float_item "amount" r
      kind ← int_get "type" (pos 0) r
      id ← str_get "tid" r
      ok (
          keep (
            fetched_trade made_ns i symbol "bitstamp" ts_ns price size (eq kind (pos 0))
              (some id))))

  unfoldable pub fetch_trades :
      (String → Result (Json F))
      → (ℕ → ℕ)
      → Option String
      → String
      → ℤ
      → ℤ
      → Result (List (Trade F))
  unfolding collect trade_of sorted_by
  fetch_trades server made_ns native symbol start_ns end_ns = with_native (ok []) native λ pair. do
    rows ← server pair >>= iterate
    out ← collect (trade_of made_ns symbol start_ns end_ns) 0 rows
    ok (sorted_by (λ t. t.ts_ns) out.0)
