-- ===== src/Sources/Gemini.antt =====
-- cryptodata/sources/gemini.py: Gemini spot.
use Prim.Native.String.{String}
use crypto_data_aggregator.Prelude.{ℕ, ◌/◌, Bool, Option, List, [], ◌∷◌}
use crypto_data_aggregator.Prelude.Int.{pos, int_order}
use crypto_data_aggregator.Prelude.Order.{text_order, eq}
use crypto_data_aggregator.Float.{Float, float_order}
use crypto_data_aggregator.Python.{
  Result, ok, ◌>>=◌, Json, integer, text, Python, get_or, to_int, times, text_of, float_item,
  str_get, get_is,
}
use crypto_data_aggregator.Rows.{Trade}
use crypto_data_aggregator.Sources.{
  Emission, Session, each_message, when_known, received_trade, rows_if, or_text,
}

module _ {ℓ} {F : Type ℓ} ⦃fl : Float F⦄ ⦃py : Python F⦄ where
  -- The message, if its type is right.
  unfoldable pub typed_rows : String → Json F → Result (List (Json F))
  typed_rows type msg = do c ← get_is "type" type msg; rows_if c (ok (msg ∷ []))

  -- `to_canonical(sym, self.name) or to_canonical(sym.lower(), self.name)`
  unfoldable pub either_canonical : Session → Json F → Result (Option String)
  either_canonical session sym = do
    s ← text_of sym
    ok (or_text (session.canon s) (session.canon (py.lower s)))

  -- `str(j.get(k, "")).lower() == s`
  unfoldable pub lower_is : String → String → Json F → Result Bool
  lower_is k s j = str_get k j >>= λ v. ok (eq s (py.lower v))

  unfoldable pub trade_of : Session → ℕ → Json F → Result (Option (Trade F))
  unfolding either_canonical lower_is
  trade_of session i msg = do
    sym ← get_or "symbol" (text "") msg
    known ← either_canonical session sym
    when_known known λ canonical. do
      timestamp ← get_or "timestamp" (integer (pos (session.recv_ns / 1_000_000))) msg
      ms ← to_int timestamp
      price ← float_item "price" msg
      size ← float_item "quantity" msg
      is_buy ← lower_is "side" "buy" msg
      id ← str_get "event_id" msg
      ok (received_trade session i "gemini" canonical (times ms 1_000_000) price size is_buy id)

  unfoldable pub stream_trades :
      (ℕ → Session) → List (Option (Json F)) → Emission (Trade F) (Unit {0})
  unfolding each_message typed_rows trade_of
  stream_trades sessions frames = each_message sessions (typed_rows "trade") trade_of frames
