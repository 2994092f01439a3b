-- ===== src/Sources/Binance.antt =====
-- cryptodata/sources/binance.py: Binance Spot.
use crypto_data_aggregator.Prelude.{ℕ, not, Option, List, [], ◌∷◌, ◌&&◌, if◌then◌else◌}
use crypto_data_aggregator.Prelude.Int.{pos, ◌-ℤ◌}
use crypto_data_aggregator.Float.{Float}
use crypto_data_aggregator.Python.{
  Result, ok, ◌>>=◌, Json, Python, get, item, is_text, is_truthy, float_item, has,
}
use crypto_data_aggregator.Rows.{Trade, Quote}
use crypto_data_aggregator.Sources.{
  Emission, Session, each_message, canonical_of, when_known, received_trade, received_quote,
  get_or_else, ms_to_ns,
}

module _ {ℓ} {F : Type ℓ} ⦃fl : Float F⦄ ⦃py : Python F⦄ where
  -- The guards of `stream_trades`: the trade's dict, if the message is one.
  unfoldable pub trade_rows : Json F → Result (List (Json F))
  trade_rows msg = do
    d ← get_or_else "data" msg msg
    kind ← get "e" d
    ok (if is_text "trade" kind then d ∷ [] else [])

  unfoldable pub trade_of : Session → ℕ → Json F → Result (Option (Trade F))
  trade_of session i d = do
    s ← item "s" d
    known ← canonical_of session s
    when_known known λ canonical. do
      t ← item "T" d
      ts_ns ← ms_to_ns t
      price ← float_item "p" d
      size ← float_item "q" d
      m ← get "m" d
      id ← item "t" d
      ok (
          received_trade session i "binance" canonical ts_ns price size (not (is_truthy m))
            (py.str_of id))

  unfoldable pub stream_trades :
      (ℕ → Session) → List (Option (Json F)) → Emission (Trade F) (Unit {0})
  unfolding each_message trade_rows trade_of
  stream_trades sessions frames = each_message sessions trade_rows trade_of frames

  -- The guards of `stream_quotes`.
  unfoldable pub quote_rows : Json F → Result (List (Json F))
  quote_rows msg = do
    d ← get_or_else "data" msg msg
    s ← has "s" d
    b ← has "b" d
    ok (if s && b then d ∷ [] else [])

  unfoldable pub quote_of : Session → ℕ → Json F → Result (Option (Quote F))
  quote_of session i d = do
    s ← item "s" d
    known ← canonical_of session s
    when_known known λ canonical. do
      bid_px ← float_item "b" d
      ask_px ← float_item "a" d
      bid_sz ← float_item "B" d
      ask_sz ← float_item "A" d
      ok (
          received_quote session i "binance" canonical (pos session.recv_ns -ℤ pos 1_000_000) bid_px
            ask_px bid_sz ask_sz)

  unfoldable pub stream_quotes :
      (ℕ → Session) → List (Option (Json F)) → Emission (Quote F) (Unit {0})
  unfolding each_message quote_rows quote_of
  stream_quotes sessions frames = each_message sessions quote_rows quote_of frames
