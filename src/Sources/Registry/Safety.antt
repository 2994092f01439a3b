-- ===== src/Sources/Registry/Safety.antt =====
-- The streams of trades of all adapters, taken together.
use crypto_data_aggregator.Prelude.{length, ℕ, refl, Option, List, All}
use crypto_data_aggregator.Float.{Float}
use crypto_data_aggregator.Python.{Python, Json, ok, raise}
use crypto_data_aggregator.Symbols.{Index}
use crypto_data_aggregator.Sources.{Emission}
use crypto_data_aggregator.Sources.Streams
use crypto_data_aggregator.Sources.Streams.{IsStreamed}
use crypto_data_aggregator.Sources.Registry.{
  Adapter, binance_spot, binance_futures, bybit_perp, coinbase, kraken, okx_spot, bitstamp_spot,
  gemini_spot, bitfinex_spot, name_of, session_of, canon_of, stream_trades, without_state,
}

All-without_state {ℓ κ μ} :
    {B : Type ℓ} {S : Type κ} (Q : B → Type μ) (e : Emission B S)
    → All Q e.0
    → All Q (without_state e).0
All-without_state Q (bs, ok s) h = h
All-without_state Q (bs, raise e) h = h

module _ {ℓ} {F : Type ℓ} ⦃fl : Float F⦄ ⦃py : Python F⦄ where
  -- Whatever frames a venue sends, every trade that its adapter's stream yields carries the adapter's name
  -- as its venue, the clock's reading for one of the frames as its time of receipt, a canonical symbol
  -- that the adapter finds for some native ticker, and a side of +1 or -1.
  pub stream_trades-IsStreamed :
      (index : Index) (recv_ns : ℕ → ℕ) (made_ns : ℕ → ℕ → ℕ) (adapter : Adapter)
      (frames : List (Option (Json F)))
      → All
          (IsStreamed
            (name_of adapter)
            (session_of py index adapter recv_ns made_ns)
            (length frames))
          (stream_trades adapter (session_of py index adapter recv_ns made_ns) frames).0
  unfolding stream_trades name_of
  stream_trades-IsStreamed index recv_ns made_ns binance_spot frames =
      Streams.binance (session_of py index binance_spot recv_ns made_ns) frames
  stream_trades-IsStreamed index recv_ns made_ns binance_futures frames = tt
  stream_trades-IsStreamed index recv_ns made_ns bybit_perp frames =
      Streams.bybit (session_of py index bybit_perp recv_ns made_ns) frames
  stream_trades-IsStreamed index recv_ns made_ns coinbase frames =
      Streams.coinbase (session_of py index coinbase recv_ns made_ns) frames
  stream_trades-IsStreamed index recv_ns made_ns kraken frames =
      Streams.kraken (session_of py index kraken recv_ns made_ns) frames
  stream_trades-IsStreamed index recv_ns made_ns okx_spot frames =
      Streams.okx (session_of py index okx_spot recv_ns made_ns) frames
  stream_trades-IsStreamed index recv_ns made_ns bitstamp_spot frames =
      Streams.bitstamp (session_of py index bitstamp_spot recv_ns made_ns) frames
  stream_trades-IsStreamed index recv_ns made_ns gemini_spot frames =
      Streams.gemini (session_of py index gemini_spot recv_ns made_ns) frames
  stream_trades-IsStreamed index recv_ns made_ns bitfinex_spot frames = All-without_state _ _ (
      Streams.bitfinex (session_of py index bitfinex_spot recv_ns made_ns)
        (canon_of py index bitfinex_spot) (λ n. refl) frames)
