-- ===== src/Sources/Bitstamp.antt =====
-- cryptodata/sources/bitstamp.py: Bitstamp spot.
use Prim.Native.String.{String}
use crypto_data_aggregator.Prelude.{ℕ, Option, none, some, List, [], ◌∷◌, ◌&&◌}
use crypto_data_aggregator.Prelude.Int.{pos, int_order}
use crypto_data_aggregator.Prelude.Order.{text_order, eq}
use crypto_data_aggregator.Float.{Float, float_order}
use crypto_data_aggregator.Python.{
  Result, ok, ◌>>=◌, Json, integer, text, Python, get_or, is_truthy, to_int, text_of, float_item,
  str_get, get_is,
}
use crypto_data_aggregator.Rows.{Trade, Quote}
use crypto_data_aggregator.Sources.{
  Emission, Session, each_message, when_known, received_trade, received_quote, get_or_else,
  micro_ts_ns, rows_if, top_of_book, empty_list, empty_dict, when,
}

module _ {ℓ} {F : Type ℓ} ⦃fl : Float F⦄ ⦃py : Python F⦄ where
  -- The message, if the event is right.
  unfoldable pub event_rows : String → Json F → Result (List (Json F))
  event_rows event msg = do c ← get_is "event" event msg; rows_if c (ok (msg ∷ []))

  -- `to_canonical(msg.get("channel", "").replace(prefix, ""), self.name)`
  unfoldable pub channel_canonical : String → Session → Json F → Result (Option String)
  channel_canonical prefix session msg = do
    chan ← get_or "channel" (text "") msg
    s ← text_of chan
    ok (session.canon (py.replace prefix "" s))

  unfoldable pub trade_of : Session → ℕ → Json F → Result (Option (Trade F))
  unfolding channel_canonical
  trade_of session i msg = do
    known ← channel_canonical "live_trades_" session msg
    when_known known λ canonical. do
      d ← get_or_else "data" empty_dict msg
      ts_ns ← micro_ts_ns d
      price ← float_item "price" d
      size ← float_item "amount" d
      kind ← get_or "type" (integer (pos 0)) d
      n ← to_int kind
      id ← str_get "id" d
      ok (received_trade session i "bitstamp" canonical ts_ns price size (eq n (pos 0)) id)

  unfoldable pub stream_trades :
      (ℕ → Session) → List (Option (Json F)) → Emission (Trade F) (Unit {0})
  unfolding each_message event_rows trade_of
  stream_trades sessions frames = each_message sessions (event_rows "trade") trade_of frames

  abbrev when_quoted :
      Option String → (String → Result (Option (Quote F))) → Result (Option (Quote F))
  when_quoted none f = ok none
  when_quoted (some canonical) f = f canonical

  unfoldable pub quote_of : Session → ℕ → Json F → Result (Option (Quote F))
  unfolding channel_canonical
  quote_of session i msg = do
    known ← channel_canonical "order_book_" session msg
    when_quoted known λ canonical. do
      d ← get_or_else "data" empty_dict msg
      bids ← get_or_else "bids" empty_list d
      asks ← get_or_else "asks" empty_list d
      when (is_truthy bids && is_truthy asks) (do
        ts_ns ← micro_ts_ns d
        bid_px ← top_of_book 0 bids
        ask_px ← top_of_book 0 asks
        bid_sz ← top_of_book 1 bids
        ask_sz ← top_of_book 1 asks
        ok (some (received_quote session i "bitstamp" canonical ts_ns bid_px ask_px bid_sz ask_sz)))

  unfoldable pub stream_quotes :
      (ℕ → Session) → List (Option (Json F)) → Emission (Quote F) (Unit {0})
  unfolding each_message event_rows quote_of
  stream_quotes sessions frames = each_message sessions (event_rows "data") quote_of frames
