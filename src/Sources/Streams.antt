-- ===== src/Sources/Streams.antt =====
-- What the streams of trades yield, for every venue.
use Prim.Native.String.{String}
use crypto_data_aggregator.Prelude.{
  ◌<◌, arith, subst, ℕ, ◌+◌, ◌≡◌, Option, List, [], ◌∷◌, All, length,
}
use crypto_data_aggregator.Prelude.Int.{int_order}
use crypto_data_aggregator.Prelude.Order.{text_order}
use crypto_data_aggregator.Float.{Float}
use crypto_data_aggregator.Python.{Result, ok, raise, Json, Python}
use crypto_data_aggregator.Python.Results.{Ensures, holds, raises, IsNoneOr, IsNoneOr-imp}
use crypto_data_aggregator.Rows.{Trade}
use crypto_data_aggregator.Sources.{Emission, Session}
use crypto_data_aggregator.Sources.Yields.{
  Yields, Any, run_frames-Yields_within, each_message-Yields, and_then-Yields, for_rows-Yields,
}
use crypto_data_aggregator.Sources.Trades.{
  IsTradeOf, binance-IsTradeOf, kraken-IsTradeOf, coinbase-IsTradeOf, bybit-IsTradeOf,
  okx-IsTradeOf, bitstamp-IsTradeOf, gemini-IsTradeOf,
}
use crypto_data_aggregator.Sources.Channels.{AreKnown, on_trade_message-Yields}
use crypto_data_aggregator.Sources.Binance
use crypto_data_aggregator.Sources.Kraken
use crypto_data_aggregator.Sources.Coinbase
use crypto_data_aggregator.Sources.Bybit
use crypto_data_aggregator.Sources.Okx
use crypto_data_aggregator.Sources.Bitstamp
use crypto_data_aggregator.Sources.Gemini
use crypto_data_aggregator.Sources.Bitfinex

-- A trade of one of the first `end` messages.
abbrev pub IsStreamed {ℓ} : {F : Type ℓ} → String → (ℕ → Session) → ℕ → Trade F → Type ℓ
IsStreamed venue sessions end t = (n : ℕ) × ((n < end) × IsTradeOf venue (sessions n) t)

-- In these the `n`-th message is meant.
streamed {ℓ} :
    {F : Type ℓ} {venue : String} (sessions : ℕ → Session) (end n : ℕ)
    {r : Result (Option (Trade F))}
    → n < end
    → Ensures (IsNoneOr (IsTradeOf venue (sessions n))) r
    → Ensures (IsNoneOr (IsStreamed venue sessions end)) r
streamed sessions end n le h = IsNoneOr-imp _ (λ t k. (n, (le, k))) h

module _ {ℓ} {F : Type ℓ} ⦃fl : Float F⦄ ⦃py : Python F⦄ where
  module _ {κ μ} {B : Type κ} (Q : B → Type μ) where
    on_event-Yields :
        (parse : ℕ → Json F → Result (Option B))
        → ((i : ℕ) (a : Json F) → Ensures (IsNoneOr Q) (parse i a))
        → (i : ℕ) (rows : Result (List (Json F))) (next : ℕ → Emission B (Unit {0}))
        → ((j : ℕ) → Yields Q Any (next j))
        → Yields Q Any (Coinbase.on_event parse i rows next)
    on_event-Yields parse h i (raise e) next k = (tt, raises)
    on_event-Yields parse h i (ok rows) next k =
        and_then-Yields Q Any _ _ (for_rows-Yields Q parse h i rows) λ s a. k (i + length rows)

    for_events-Yields :
        (key : String) (parse : ℕ → Json F → Result (Option B))
        → ((i : ℕ) (a : Json F) → Ensures (IsNoneOr Q) (parse i a))
        → (i : ℕ) (evs : List (Json F)) → Yields Q Any (Coinbase.for_events key parse i evs)
    unfolding Coinbase.for_events
    for_events-Yields key parse h i [] = (tt, holds tt)
    for_events-Yields key parse h i (ev ∷ evs) =
        on_event-Yields parse h i _ _ λ j. for_events-Yields key parse h j evs

    on_events-Yields :
        (key : String) (parse : ℕ → Json F → Result (Option B))
        → ((i : ℕ) (a : Json F) → Ensures (IsNoneOr Q) (parse i a))
        → (evs : Result (List (Json F))) → Yields Q Any (Coinbase.on_events key parse evs)
    on_events-Yields key parse h (raise e) = (tt, raises)
    on_events-Yields key parse h (ok evs) = for_events-Yields key parse h 0 evs

  coinbase_message {κ} :
      (Q : Trade F → Type κ) (session : Session)
      → ((t : Trade F) → IsTradeOf "coinbase" session t → Q t)
      → (msg : Json F) → Yields Q Any (Coinbase.on_trade_message session msg)
  unfolding Coinbase.on_trade_message
  coinbase_message Q session f msg =
      on_events-Yields Q "trades" (Coinbase.trade_of session)
        (λ j d. IsNoneOr-imp _ f (coinbase-IsTradeOf session j d)) _

  module _ (sessions : ℕ → Session) (frames : List (Option (Json F))) where
    pub binance :
        All
          (IsStreamed "binance" sessions (length frames))
          (Binance.stream_trades sessions frames).0
    unfolding Binance.stream_trades
    binance =
        (each_message-Yields (IsStreamed "binance" sessions (length frames)) sessions
          Binance.trade_rows Binance.trade_of frames
          (λ n i d le.
            streamed sessions (length frames) n le (binance-IsTradeOf (sessions n) i d))).0

    pub kraken :
        All (IsStreamed "kraken" sessions (length frames)) (Kraken.stream_trades sessions frames).0
    unfolding Kraken.stream_trades
    kraken =
        (each_message-Yields (IsStreamed "kraken" sessions (length frames)) sessions
          Kraken.trade_rows Kraken.trade_of frames
          (λ n i d le.
            streamed sessions (length frames) n le (kraken-IsTradeOf (sessions n) i d))).0

    pub bybit :
        All (IsStreamed "bybit" sessions (length frames)) (Bybit.stream_trades sessions frames).0
    unfolding Bybit.stream_trades
    bybit =
        (each_message-Yields (IsStreamed "bybit" sessions (length frames)) sessions Bybit.trade_rows
          Bybit.trade_of frames
          (λ n i d le. streamed sessions (length frames) n le (bybit-IsTradeOf (sessions n) i d))).0

    pub okx : All (IsStreamed "okx" sessions (length frames)) (Okx.stream_trades sessions frames).0
    unfolding Okx.stream_trades
    okx =
        (each_message-Yields (IsStreamed "okx" sessions (length frames)) sessions
          (Okx.channel_rows "trades") Okx.trade_of frames
          (λ n i d le. streamed sessions (length frames) n le (okx-IsTradeOf (sessions n) i d))).0

    pub bitstamp :
        All
          (IsStreamed "bitstamp" sessions (length frames))
          (Bitstamp.stream_trades sessions frames).0
    unfolding Bitstamp.stream_trades
    bitstamp =
        (each_message-Yields (IsStreamed "bitstamp" sessions (length frames)) sessions
          (Bitstamp.event_rows "trade") Bitstamp.trade_of frames
          (λ n i d le.
            streamed sessions (length frames) n le (bitstamp-IsTradeOf (sessions n) i d))).0

    pub gemini :
        All (IsStreamed "gemini" sessions (length frames)) (Gemini.stream_trades sessions frames).0
    unfolding Gemini.stream_trades
    gemini =
        (each_message-Yields (IsStreamed "gemini" sessions (length frames)) sessions
          (Gemini.typed_rows "trade") Gemini.trade_of frames
          (λ n i d le.
            streamed sessions (length frames) n le (gemini-IsTradeOf (sessions n) i d))).0

    pub coinbase :
        All
          (IsStreamed "coinbase" sessions (length frames))
          (Coinbase.stream_trades sessions frames).0
    unfolding Coinbase.stream_trades
    coinbase =
        (run_frames-Yields_within (IsStreamed "coinbase" sessions (length frames)) Any
          (length frames) (λ n s msg. Coinbase.on_trade_message (sessions n) msg)
          (λ n s msg le i. coinbase_message _ (sessions n) (λ t k. (n, (le, k))) msg) 0 tt frames
          (omega arith) tt).0

module _ {ℓ} {F : Type ℓ} ⦃fl : Float F⦄ ⦃py : Python F⦄ where
  -- The tickers are read the same way throughout.
  pub bitfinex :
      (sessions : ℕ → Session) (canon : String → Option String)
      → ((n : ℕ) → (sessions n).canon ≡ canon)
      → (frames : List (Option (Json F)))
      → All
          (IsStreamed "bitfinex" sessions (length frames))
          (Bitfinex.stream_trades sessions frames).0
  unfolding Bitfinex.stream_trades
  bitfinex sessions canon same frames =
      (run_frames-Yields_within (IsStreamed "bitfinex" sessions (length frames)) (AreKnown canon)
        (length frames) (λ n. Bitfinex.on_trade_message (sessions n))
        (λ n chan msg le h.
          subst
            (λ c.
              AreKnown c chan
              → Yields (IsStreamed "bitfinex" sessions (length frames)) (AreKnown c)
                  (Bitfinex.on_trade_message (sessions n) chan msg))
            (same n) (on_trade_message-Yields (sessions n) _ (λ t k. (n, (le, k))) chan msg) h)
        0 [] frames (omega arith) tt).0
