-- ===== src/Sources/Kraken.antt =====
-- cryptodata/sources/kraken.py: Kraken Spot. The pair's canonical name is what `_canon` finds.
use Prim.Native.String.{String}
use crypto_data_aggregator.Prelude.{ℕ, Option, List}
use crypto_data_aggregator.Prelude.Int.{pos, int_order}
use crypto_data_aggregator.Prelude.Order.{text_order}
use crypto_data_aggregator.Float.{Float, float_order}
use crypto_data_aggregator.Python.{
  Result, ok, raise, ◌>>=◌, Json, text, array, object, attribute_error, Python, get_or, item,
  float_item, float_get, str_get, get_is, type_error,
}
use crypto_data_aggregator.Rows.{Trade, Quote}
use crypto_data_aggregator.Sources.{
  Emission, Session, each_message, when_known, received_trade, received_quote, rows_of_channel,
  iso_to_ns,
}

module _ {ℓ} {F : Type ℓ} ⦃fl : Float F⦄ ⦃py : Python F⦄ where
  -- `_canon`: a dict looks the pair up first, and then its `replace` is asked for.
  abbrev pub pair_of : Json F → Result String
  pair_of (text s) = ok s
  pair_of (array js) = raise type_error
  pair_of (object ms) = raise type_error
  pair_of j = raise attribute_error

  unfoldable pub canon : Session → Json F → Result (Option String)
  canon session pair = pair_of pair >>= λ s. ok (session.canon s)

  unfoldable pub trade_rows : Json F → Result (List (Json F))
  unfolding rows_of_channel
  trade_rows msg = rows_of_channel "channel" "trade" "data" msg

  unfoldable pub trade_of : Session → ℕ → Json F → Result (Option (Trade F))
  trade_of session i t = do
    pair ← get_or "symbol" (text "") t
    known ← canon session pair
    when_known known λ canonical. do
      is_buy ← get_is "side" "buy" t
      iso ← item "timestamp" t
      ts_ns ← iso_to_ns iso
      price ← float_item "price" t
      size ← float_item "qty" t
      id ← str_get "trade_id" t
      ok (received_trade session i "kraken" canonical ts_ns price size is_buy id)

  unfoldable pub stream_trades :
      (ℕ → Session) → List (Option (Json F)) → Emission (Trade F) (Unit {0})
  unfolding each_message trade_rows trade_of
  stream_trades sessions frames = each_message sessions trade_rows trade_of frames

  unfoldable pub quote_rows : Json F → Result (List (Json F))
  unfolding rows_of_channel
  quote_rows msg = rows_of_channel "channel" "ticker" "data" msg

  unfoldable pub quote_of : Session → ℕ → Json F → Result (Option (Quote F))
  quote_of session i tk = do
    pair ← get_or "symbol" (text "") tk
    known ← canon session pair
    when_known known λ canonical. do
      bid_px ← float_get "bid" tk
      ask_px ← float_get "ask" tk
      bid_sz ← float_get "bid_qty" tk
      ask_sz ← float_get "ask_qty" tk
      ok (
          received_quote session i "kraken" canonical (pos session.recv_ns) bid_px ask_px bid_sz
            ask_sz)

  unfoldable pub stream_quotes :
      (ℕ → Session) → List (Option (Json F)) → Emission (Quote F) (Unit {0})
  unfolding each_message quote_rows quote_of
  stream_quotes sessions frames = each_message sessions quote_rows quote_of frames
