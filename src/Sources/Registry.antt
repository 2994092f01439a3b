-- ===== src/Sources/Registry.antt =====
-- cryptodata/sources/registry.py: the adapters by name, and the trades that each streams. The canonical
-- names that an adapter knows come from the symbol map, for Kraken by way of the pairs of its socket.
pub mod Safety
use Prim.Native.String.{String}
use crypto_data_aggregator.Prelude.{ℕ, Bool, Option, none, some, List, [], ◌∷◌, if◌then◌else◌}
use crypto_data_aggregator.Prelude.Order.{text_order, eq}
use crypto_data_aggregator.Prelude.Dict.{get, put}
use crypto_data_aggregator.Float.{Float}
use crypto_data_aggregator.Python.{
  Python, Json, Result, ok, raise, key_error, not_implemented_error, or_raise,
}
use crypto_data_aggregator.Rows.{Trade}
use crypto_data_aggregator.Symbols.{Index, to_canonical, symbols_for_venue}
use crypto_data_aggregator.Sources.{Emission, Session, or_text}
use crypto_data_aggregator.Sources.Binance
use crypto_data_aggregator.Sources.Kraken
use crypto_data_aggregator.Sources.Coinbase
use crypto_data_aggregator.Sources.Bybit
use crypto_data_aggregator.Sources.Okx
use crypto_data_aggregator.Sources.Bitstamp
use crypto_data_aggregator.Sources.Gemini
use crypto_data_aggregator.Sources.Bitfinex

-- The adapters' classes.
pub data Adapter : Type 0 where
  binance_spot : Adapter
  binance_futures : Adapter
  bybit_perp : Adapter
  coinbase : Adapter
  kraken : Adapter
  okx_spot : Adapter
  bitstamp_spot : Adapter
  gemini_spot : Adapter
  bitfinex_spot : Adapter

-- `name` of each class.
unfoldable pub name_of : Adapter → String
name_of binance_spot = "binance"
name_of binance_futures = "binance_futures"
name_of bybit_perp = "bybit"
name_of coinbase = "coinbase"
name_of kraken = "kraken"
name_of okx_spot = "okx"
name_of bitstamp_spot = "bitstamp"
name_of gemini_spot = "gemini"
name_of bitfinex_spot = "bitfinex"

-- `_ADAPTERS`
abbrev pub adapters : List (String × Adapter)
adapters =
    ("binance", binance_spot)
    ∷ ("binance_futures", binance_futures)
    ∷ ("bybit", bybit_perp)
    ∷ ("coinbase", coinbase)
    ∷ ("kraken", kraken)
    ∷ ("okx", okx_spot)
    ∷ ("bitstamp", bitstamp_spot)
    ∷ ("gemini", gemini_spot)
    ∷ ("bitfinex", bitfinex_spot)
    ∷ []

unfoldable pub make_source : String → Result Adapter
unfolding get
make_source name = or_raise key_error (get name adapters)

abbrev pub spot_venues : List String
spot_venues = "binance" ∷ "coinbase" ∷ "kraken" ∷ "okx" ∷ "bitstamp" ∷ "gemini" ∷ "bitfinex" ∷ []

abbrev pub perp_venues : List String
perp_venues = "binance_futures" ∷ "bybit" ∷ []

module _ {ℓ} {F : Type ℓ} (py : Python F) where
  -- `_kraken_ws_pair`
  unfoldable pub kraken_ws_pair : String → String
  kraken_ws_pair canonical = py.replace "-" "/" (py.replace "-PERP" "" canonical)

  -- `Kraken.__init__`: `_ws_pair_to_canonical`, over `symbols_for_venue`.
  unfoldable pub ws_pair_to_canonical :
      List (String × String) → List (String × String) → List (String × String)
  unfolding put kraken_ws_pair
  ws_pair_to_canonical [] pairs = pairs
  ws_pair_to_canonical ((canonical, native) ∷ symbols) pairs = ws_pair_to_canonical symbols (
      put (py.replace "/" "" (kraken_ws_pair canonical)) canonical
        (put (kraken_ws_pair canonical) canonical pairs))

  -- `Kraken._canon`
  unfoldable pub kraken_canon : List (String × String) → String → Option String
  unfolding get
  kraken_canon pairs ws_pair = or_text (get ws_pair pairs) (get (py.replace "/" "" ws_pair) pairs)

  -- How an adapter reads its venue's tickers.
  unfoldable pub canon_of : Index → Adapter → String → Option String
  unfolding to_canonical name_of symbols_for_venue kraken_canon ws_pair_to_canonical
  canon_of index kraken native =
      kraken_canon (ws_pair_to_canonical (symbols_for_venue index "kraken") []) native
  canon_of index adapter native = to_canonical py.upper index native (name_of adapter)

  -- What an adapter knows of the message `n` of a socket.
  abbrev pub session_of : Index → Adapter → (ℕ → ℕ) → (ℕ → ℕ → ℕ) → ℕ → Session
  session_of index adapter recv_ns made_ns n = record {
    canon = canon_of index adapter;
    recv_ns = recv_ns n;
    made_ns = made_ns n;
  }

abbrev pub without_state {ℓ κ} : {B : Type ℓ} {S : Type κ} → Emission B S → Emission B (Unit {0})
without_state (bs, ok s) = (bs, ok tt)
without_state (bs, raise e) = (bs, raise e)

module _ {ℓ} {F : Type ℓ} ⦃fl : Float F⦄ ⦃py : Python F⦄ where
  -- `make_source(name).stream_trades(symbols)`, over the frames of one connection.
  unfoldable pub stream_trades :
      Adapter → (ℕ → Session) → List (Option (Json F)) → Emission (Trade F) (Unit {0})
  unfolding Binance.stream_trades Bybit.stream_trades Coinbase.stream_trades Kraken.stream_trades
      Okx.stream_trades Bitstamp.stream_trades Gemini.stream_trades Bitfinex.stream_trades
  stream_trades binance_spot sessions frames = Binance.stream_trades sessions frames
  stream_trades binance_futures sessions frames = ([], raise not_implemented_error)
  stream_trades bybit_perp sessions frames = Bybit.stream_trades sessions frames
  stream_trades coinbase sessions frames = Coinbase.stream_trades sessions frames
  stream_trades kraken sessions frames = Kraken.stream_trades sessions frames
  stream_trades okx_spot sessions frames = Okx.stream_trades sessions frames
  stream_trades bitstamp_spot sessions frames = Bitstamp.stream_trades sessions frames
  stream_trades gemini_spot sessions frames = Gemini.stream_trades sessions frames
  stream_trades bitfinex_spot sessions frames =
      without_state (Bitfinex.stream_trades sessions frames)
