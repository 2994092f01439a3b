-- ===== src/Sources/Connect.antt =====
-- The reconnects of cryptodata/sources/: `_connect` of kraken.py, which the adapters of Bybit, OKX,
-- Coinbase, Bitstamp, Gemini and Bitfinex repeat, and `_ws_messages` of binance.py. What becomes of each
-- attempt to connect is an argument, and the pauses are the result.
use crypto_data_aggregator.Prelude.{List, [], ◌∷◌, if◌then◌else◌}
use crypto_data_aggregator.Float.{Float, one}

-- No connection, a connection that ends with an exception, or one that the venue closes.
pub data Attempt : Type 0 where
  refused : Attempt
  dropped : Attempt
  closed : Attempt

module _ {ℓ} {F : Type ℓ} ⦃fl : Float F⦄ where
  abbrev pub sixty : F
  sixty = fl.of_decimal 60 0

  -- `min(x, 60.0)`
  abbrev pub capped : F → F
  capped x = if fl.order.le x sixty then x else sixty

  -- `min(backoff * 2, 60.0)`
  abbrev pub doubled : F → F
  doubled backoff = capped (fl.mul backoff (fl.of_nat 2))

  -- `backoff`, once the attempt is over: a connection sets it back.
  abbrev pub after_attempt : Attempt → F → F
  after_attempt refused backoff = backoff
  after_attempt dropped backoff = one
  after_attempt closed backoff = one

  -- `_connect`: a pause after every attempt.
  unfoldable pub connect_pauses : F → List Attempt → List F
  connect_pauses backoff [] = []
  connect_pauses backoff (a ∷ attempts) =
      capped (after_attempt a backoff) ∷ connect_pauses (doubled (after_attempt a backoff)) attempts

  -- `_ws_messages`: a pause only after an exception.
  unfoldable pub ws_messages_pauses : F → List Attempt → List F
  ws_messages_pauses backoff [] = []
  ws_messages_pauses backoff (closed ∷ attempts) = ws_messages_pauses one attempts
  ws_messages_pauses backoff (a ∷ attempts) =
      capped (after_attempt a backoff)
      ∷ ws_messages_pauses (doubled (after_attempt a backoff)) attempts
