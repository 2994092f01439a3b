-- ===== src/Sources/Coinbase.antt =====
-- cryptodata/sources/coinbase.py: Coinbase Advanced Trade.
use Prim.Native.String.{String}
use crypto_data_aggregator.Prelude.{ℕ, ◌+◌, length, Option, List, [], ◌∷◌, if◌then◌else◌}
use crypto_data_aggregator.Prelude.Int.{ℤ, pos, int_order}
use crypto_data_aggregator.Prelude.Order.{text_order, eq}
use crypto_data_aggregator.Float.{Float, nought, float_order}
use crypto_data_aggregator.Python.{
  Result, ok, raise, ◌>>=◌, Json, decimal, Python, get, get_or, item, or_else, is_truthy, to_float,
  text_of, iterate, float_item, str_get,
}
use crypto_data_aggregator.Rows.{Trade, Quote}
use crypto_data_aggregator.Sources.{
  Emission, Session, canonical_of, when_known, received_trade, received_quote, get_or_else,
  and_then, rows_of_channel, iso_to_ns, empty_list, run_frames, for_rows,
}

module _ {ℓ} {F : Type ℓ} ⦃fl : Float F⦄ ⦃py : Python F⦄ where
  -- The rows that an event lists.
  unfoldable pub event_rows : String → Json F → Result (List (Json F))
  event_rows k ev = get_or k empty_list ev >>= iterate

  abbrev pub on_event {κ} :
      {B : Type κ}
      → (ℕ → Json F → Result (Option B))
      → ℕ
      → Result (List (Json F))
      → (ℕ → Emission B (Unit {0}))
      → Emission B (Unit {0})
  on_event parse i (raise e) next = ([], raise e)
  on_event parse i (ok rows) next = and_then (for_rows parse i rows) λ _. next (i + length rows)

  -- `for ev in events: for row in ev.get(k, [])`
  unfoldable pub for_events {κ} :
      {B : Type κ}
      → String
      → (ℕ → Json F → Result (Option B))
      → ℕ
      → List (Json F)
      → Emission B (Unit {0})
  unfolding event_rows
  for_events k parse i [] = ([], ok tt)
  for_events k parse i (ev ∷ evs) = on_event parse i (event_rows k ev) λ j. for_events k parse j evs

  abbrev pub on_events {κ} :
      {B : Type κ}
      → String
      → (ℕ → Json F → Result (Option B))
      → Result (List (Json F))
      → Emission B (Unit {0})
  on_events k parse (raise e) = ([], raise e)
  on_events k parse (ok evs) = for_events k parse 0 evs

  unfoldable pub trade_of : Session → ℕ → Json F → Result (Option (Trade F))
  trade_of session i t = do
    product_id ← item "product_id" t
    known ← canonical_of session product_id
    when_known known λ canonical. do
      side ← item "side" t
      s ← text_of side
      iso ← item "time" t
      ts_ns ← iso_to_ns iso
      price ← float_item "price" t
      size ← float_item "size" t
      id ← str_get "trade_id" t
      ok (received_trade session i "coinbase" canonical ts_ns price size (eq "BUY" (py.upper s)) id)

  -- `float(tk.get(k) or tk.get("price") or 0.0)`
  unfoldable pub best_or_price : String → Json F → Result F
  best_or_price k tk = do
    best ← get k tk
    price ← get "price" tk
    to_float (or_else (or_else best price) (decimal nought))

  -- `float(tk.get(k) or 0.0)`
  unfoldable pub quantity_of : String → Json F → Result F
  quantity_of k tk = get_or_else k (decimal nought) tk >>= to_float

  -- `_iso_to_ns(ts) if ts else recv_ns`
  unfoldable pub quote_ts_ns : Session → Json F → Result ℤ
  quote_ts_ns session ts = if is_truthy ts then iso_to_ns ts else ok (pos session.recv_ns)

  unfoldable pub quote_of : Json F → Session → ℕ → Json F → Result (Option (Quote F))
  quote_of msg session i tk = do
    product_id ← item "product_id" tk
    known ← canonical_of session product_id
    when_known known λ canonical. do
      bid ← best_or_price "best_bid" tk
      ask ← best_or_price "best_ask" tk
      bid_sz ← quantity_of "best_bid_quantity" tk
      ask_sz ← quantity_of "best_ask_quantity" tk
      ts ← get "timestamp" msg
      ts_ns ← quote_ts_ns session ts
      ok (received_quote session i "coinbase" canonical ts_ns bid ask bid_sz ask_sz)

  unfoldable pub on_trade_message : Session → Json F → Emission (Trade F) (Unit {0})
  unfolding rows_of_channel trade_of for_events
  on_trade_message session msg =
      on_events "trades" (trade_of session) (rows_of_channel "channel" "market_trades" "events" msg)

  unfoldable pub stream_trades :
      (ℕ → Session) → List (Option (Json F)) → Emission (Trade F) (Unit {0})
  unfolding run_frames on_trade_message
  stream_trades sessions frames =
      run_frames (λ n s msg. on_trade_message (sessions n) msg) 0 tt frames

  unfoldable pub on_quote_message : Session → Json F → Emission (Quote F) (Unit {0})
  unfolding rows_of_channel quote_of for_events
  on_quote_message session msg =
      on_events "tickers" (quote_of msg session) (rows_of_channel "channel" "ticker" "events" msg)

  unfoldable pub stream_quotes :
      (ℕ → Session) → List (Option (Json F)) → Emission (Quote F) (Unit {0})
  unfolding run_frames on_quote_message
  stream_quotes sessions frames =
      run_frames (λ n s msg. on_quote_message (sessions n) msg) 0 tt frames
