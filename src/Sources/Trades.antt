-- ===== src/Sources/Trades.antt =====
-- What the parsers of trades make of a row, for every venue.
use Prim.Native.String.{String}
use crypto_data_aggregator.Prelude.{
  ℕ, ◌≡◌, refl, ◌⊎◌, inl, inr, Bool, true, false, Option, none, some, Bool-cases,
}
use crypto_data_aggregator.Prelude.Int.{ℤ, pos, negsuc}
use crypto_data_aggregator.Prelude.Order.{text_order, eq}
use crypto_data_aggregator.Float.{Float}
use crypto_data_aggregator.Python.{Result, Json, Python}
use crypto_data_aggregator.Python.Results.{Ensures, holds, IsNoneOr, Ensures-read, Ensures-bind}
use crypto_data_aggregator.Rows.{Trade}
use crypto_data_aggregator.Sources.{
  Session, canonical_of, when_known, side_of, received_trade, or_text, when,
}
use crypto_data_aggregator.Sources.Binance
use crypto_data_aggregator.Sources.Kraken
use crypto_data_aggregator.Sources.Coinbase
use crypto_data_aggregator.Sources.Bybit
use crypto_data_aggregator.Sources.Okx
use crypto_data_aggregator.Sources.Bitstamp
use crypto_data_aggregator.Sources.Gemini
use crypto_data_aggregator.Sources.Bitfinex

-- A trade of the venue, received when the message was, of a symbol that the venue's tickers know, and
-- with an aggressor.
pub record IsTradeOf {ℓ} {F : Type ℓ} (venue : String) (session : Session) (t : Trade F)
    : Type ℓ where
  pub from_venue : t.venue ≡ venue
  pub received_then : t.recv_ns ≡ pos session.recv_ns
  pub known_symbol : (native : String) × (session.canon native ≡ some t.symbol)
  pub has_side : (t.side ≡ pos 1) ⊎ (t.side ≡ negsuc 0)

side_of-is_side : (b : Bool) → (side_of b ≡ pos 1) ⊎ (side_of b ≡ negsuc 0)
side_of-is_side true = inl refl
side_of-is_side false = inr refl

abbrev pub IsKnown : Session → Option String → Type 0
IsKnown session none = Unit
IsKnown session (some canonical) = (native : String) × (session.canon native ≡ some canonical)

pub canon-IsKnown :
    (session : Session) (native : String) (o : Option String)
    → session.canon native ≡ o
    → IsKnown session o
canon-IsKnown session native none e = tt
canon-IsKnown session native (some canonical) e = (native, e)

pub or_text-IsKnown :
    (session : Session) (a b : Option String)
    → IsKnown session a
    → IsKnown session b
    → IsKnown session (or_text a b)
or_text-IsKnown session none b h k = k
or_text-IsKnown session (some s) b h k = elim (Bool-cases (eq s "")) [
  | inl e ↦ rw e k
  | inr e ↦ rw e h
]

when-Ensures {ℓ κ} :
    {B : Type ℓ} (P : B → Type κ) (c : Bool) (row : Result (Option B))
    → Ensures (IsNoneOr P) row
    → Ensures (IsNoneOr P) (when c row)
when-Ensures P true row h = h
when-Ensures P false row h = holds tt

module _ {ℓ} {F : Type ℓ} where
  pub canonical_of-Ensures :
      (session : Session) (native : Json F)
      → Ensures (IsKnown session) (canonical_of session native)
  unfolding canonical_of
  canonical_of-Ensures session native =
      Ensures-read _ λ s. holds (canon-IsKnown session s (session.canon s) refl)

when_known-Ensures {ℓ κ} :
    {B : Type ℓ} (P : B → Type κ) (session : Session) (o : Option String) (f : String → Result B)
    → IsKnown session o
    → ((c native : String) → session.canon native ≡ some c → Ensures P (f c))
    → Ensures (IsNoneOr P) (when_known o f)
unfolding when_known
when_known-Ensures P session none f h k = holds tt
when_known-Ensures P session (some c) f (native, e) k = Ensures-bind (k c native e) λ b p. holds p

-- The last step of a parser: the trade is made of the session, the venue's name and a known symbol.
received_trade-IsTradeOf {ℓ} :
    {F : Type ℓ} (session : Session) (i : ℕ) (venue canonical native : String) (ts_ns : ℤ)
    (price size : F) (is_buy : Bool) (id : String)
    → session.canon native ≡ some canonical
    → IsTradeOf venue session (received_trade session i venue canonical ts_ns price size is_buy id)
received_trade-IsTradeOf session i venue canonical native ts_ns price size is_buy id e = record {
  from_venue = refl;
  received_then = refl;
  known_symbol = (native, e);
  has_side = side_of-is_side is_buy;
}

module _ {ℓ} {F : Type ℓ} ⦃fl : Float F⦄ ⦃py : Python F⦄ (session : Session) where
  pub binance-IsTradeOf :
      (i : ℕ) (d : Json F)
      → Ensures (IsNoneOr (IsTradeOf "binance" session)) (Binance.trade_of session i d)
  unfolding Binance.trade_of
  binance-IsTradeOf i d = Ensures-read _ λ s.
      Ensures-bind (canonical_of-Ensures session s) λ known k.
        when_known-Ensures _ session known _ k λ c native e. Ensures-read _ λ _. Ensures-read _ λ _.
          Ensures-read _ λ _. Ensures-read _ λ _. Ensures-read _ λ _.
            Ensures-read _ λ _. holds (received_trade-IsTradeOf session i _ c native _ _ _ _ _ e)

  pub coinbase-IsTradeOf :
      (i : ℕ) (d : Json F)
      → Ensures (IsNoneOr (IsTradeOf "coinbase" session)) (Coinbase.trade_of session i d)
  unfolding Coinbase.trade_of
  coinbase-IsTradeOf i d = Ensures-read _ λ s.
      Ensures-bind (canonical_of-Ensures session s) λ known k.
        when_known-Ensures _ session known _ k λ c native e. Ensures-read _ λ _. Ensures-read _ λ _.
          Ensures-read _ λ _. Ensures-read _ λ _. Ensures-read _ λ _. Ensures-read _ λ _.
            Ensures-read _ λ _. holds (received_trade-IsTradeOf session i _ c native _ _ _ _ _ e)

  kraken_canon-IsKnown : (pair : Json F) → Ensures (IsKnown session) (Kraken.canon session pair)
  unfolding Kraken.canon
  kraken_canon-IsKnown pair = Ensures-read _ λ s. holds (canon-IsKnown session s _ refl)

  pub kraken-IsTradeOf :
      (i : ℕ) (d : Json F)
      → Ensures (IsNoneOr (IsTradeOf "kraken" session)) (Kraken.trade_of session i d)
  unfolding Kraken.trade_of
  kraken-IsTradeOf i d = Ensures-read _ λ s. Ensures-bind (kraken_canon-IsKnown s) λ known k.
      when_known-Ensures _ session known _ k λ c native e. Ensures-read _ λ _. Ensures-read _ λ _.
        Ensures-read _ λ _. Ensures-read _ λ _.
          Ensures-read _ λ _.
            Ensures-read _ λ _. holds (received_trade-IsTradeOf session i _ c native _ _ _ _ _ e)

  pub okx-IsTradeOf :
      (i : ℕ) (d : Json F) → Ensures (IsNoneOr (IsTradeOf "okx" session)) (Okx.trade_of session i d)
  unfolding Okx.trade_of
  okx-IsTradeOf i d = Ensures-read _ λ s. Ensures-bind (canonical_of-Ensures session s) λ known k.
      when_known-Ensures _ session known _ k λ c native e. Ensures-read _ λ _. Ensures-read _ λ _.
        Ensures-read _ λ _.
          Ensures-read _ λ _.
            Ensures-read _ λ _. holds (received_trade-IsTradeOf session i _ c native _ _ _ _ _ e)

  pub bybit-IsTradeOf :
      (i : ℕ) (d : Json F)
      → Ensures (IsNoneOr (IsTradeOf "bybit" session)) (Bybit.trade_of session i d)
  unfolding Bybit.trade_of
  bybit-IsTradeOf i d = Ensures-read _ λ s. Ensures-bind (canonical_of-Ensures session s) λ known k.
      when_known-Ensures _ session known _ k λ c native e. Ensures-read _ λ _. Ensures-read _ λ _.
        Ensures-read _ λ _. Ensures-read _ λ _.
          Ensures-read _ λ _.
            Ensures-read _ λ _. holds (received_trade-IsTradeOf session i _ c native _ _ _ _ _ e)

  bitstamp_canonical :
      (prefix : String) (msg : Json F)
      → Ensures (IsKnown session) (Bitstamp.channel_canonical prefix session msg)
  unfolding Bitstamp.channel_canonical
  bitstamp_canonical prefix msg =
      Ensures-read _ λ chan. Ensures-read _ λ s. holds (canon-IsKnown session _ _ refl)

  gemini_canonical :
      (sym : Json F) → Ensures (IsKnown session) (Gemini.either_canonical session sym)
  unfolding Gemini.either_canonical
  gemini_canonical sym = Ensures-read _ λ s. holds (
      or_text-IsKnown session _ _ (canon-IsKnown session _ _ refl) (canon-IsKnown session _ _ refl))

  pub bitstamp-IsTradeOf :
      (i : ℕ) (d : Json F)
      → Ensures (IsNoneOr (IsTradeOf "bitstamp" session)) (Bitstamp.trade_of session i d)
  unfolding Bitstamp.trade_of
  bitstamp-IsTradeOf i d = Ensures-bind (bitstamp_canonical "live_trades_" d) λ known k.
      when_known-Ensures _ session known _ k λ c native e. Ensures-read _ λ _. Ensures-read _ λ _.
        Ensures-read _ λ _. Ensures-read _ λ _. Ensures-read _ λ _.
          Ensures-read _ λ _.
            Ensures-read _ λ _. holds (received_trade-IsTradeOf session i _ c native _ _ _ _ _ e)

  pub gemini-IsTradeOf :
      (i : ℕ) (d : Json F)
      → Ensures (IsNoneOr (IsTradeOf "gemini" session)) (Gemini.trade_of session i d)
  unfolding Gemini.trade_of
  gemini-IsTradeOf i d = Ensures-read _ λ sym. Ensures-bind (gemini_canonical sym) λ known k.
      when_known-Ensures _ session known _ k λ c native e. Ensures-read _ λ _. Ensures-read _ λ _.
        Ensures-read _ λ _. Ensures-read _ λ _.
          Ensures-read _ λ _.
            Ensures-read _ λ _. holds (received_trade-IsTradeOf session i _ c native _ _ _ _ _ e)

  pub bitfinex-IsTradeOf :
      (canonical : String)
      → (native : String) × (session.canon native ≡ some canonical)
      → (i : ℕ) (r : Json F)
      → Ensures (IsNoneOr (IsTradeOf "bitfinex" session)) (Bitfinex.trade_of canonical session i r)
  unfolding Bitfinex.trade_of
  bitfinex-IsTradeOf canonical (native, e) i r = when-Ensures _ _ _ (
      Ensures-read _ λ _. Ensures-read _ λ _. Ensures-read _ λ _. Ensures-read _ λ _.
        Ensures-read _
          λ _. holds (received_trade-IsTradeOf session i _ canonical native _ _ _ _ _ e))
