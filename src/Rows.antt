-- ===== src/Rows.antt =====
-- The normalized rows of cryptodata/sources/base.py and their `to_row`. Times are ns since the epoch;
-- `int(...)` and `float(...)` leave values of those types as they are.
pub mod Conforms
mod Tests
use Prim.Native.String.{String}
use crypto_data_aggregator.Prelude.{ℕ, Option, none, some, List, [], ◌∷◌}
use crypto_data_aggregator.Prelude.Int.{ℤ, pos}
use crypto_data_aggregator.Storage.Schemas.{Value, whole, number, text, levels, null}

pub record Trade {ℓ} (F : Type ℓ) : Type ℓ where
  pub ts_ns : ℤ
  pub recv_ns : ℤ
  pub symbol : String
  pub venue : String
  pub price : F
  pub size : F
  pub side : ℤ
  pub trade_id : Option String
  pub ingested_at_ns : ℤ

pub record Quote {ℓ} (F : Type ℓ) : Type ℓ where
  pub ts_ns : ℤ
  pub recv_ns : ℤ
  pub symbol : String
  pub venue : String
  pub bid_px : F
  pub ask_px : F
  pub bid_sz : F
  pub ask_sz : F
  pub ingested_at_ns : ℤ

pub record BookSnapshot {ℓ} (F : Type ℓ) : Type ℓ where
  pub ts_ns : ℤ
  pub recv_ns : ℤ
  pub symbol : String
  pub venue : String
  pub depth : ℕ
  pub bids : List (F × F)
  pub asks : List (F × F)
  pub ingested_at_ns : ℤ

pub record Funding {ℓ} (F : Type ℓ) : Type ℓ where
  pub ts_ns : ℤ
  pub recv_ns : ℤ
  pub symbol : String
  pub venue : String
  pub funding_rate : F
  pub mark_price : Option F
  pub next_ts_ns : Option ℤ
  pub ingested_at_ns : ℤ

pub record OpenInterest {ℓ} (F : Type ℓ) : Type ℓ where
  pub ts_ns : ℤ
  pub recv_ns : ℤ
  pub symbol : String
  pub venue : String
  pub oi_base : Option F
  pub oi_quote : Option F
  pub ingested_at_ns : ℤ

module _ {ℓ} {F : Type ℓ} where
  abbrev pub number_or_null : Option F → Value F
  number_or_null none = null
  number_or_null (some x) = number x

  abbrev pub whole_or_null : Option ℤ → Value F
  whole_or_null none = null
  whole_or_null (some n) = whole n

  abbrev pub text_or_null : Option String → Value F
  text_or_null none = null
  text_or_null (some s) = text s

  unfoldable pub trade_to_row : Trade F → List (String × Value F)
  trade_to_row t =
      ("ts_ns", whole t.ts_ns)
      ∷ ("recv_ns", whole t.recv_ns)
      ∷ ("symbol", text t.symbol)
      ∷ ("venue", text t.venue)
      ∷ ("price", number t.price)
      ∷ ("size", number t.size)
      ∷ ("side", whole t.side)
      ∷ ("trade_id", text_or_null t.trade_id)
      ∷ ("ingested_at_ns", whole t.ingested_at_ns)
      ∷ []

  unfoldable pub quote_to_row : Quote F → List (String × Value F)
  quote_to_row t =
      ("ts_ns", whole t.ts_ns)
      ∷ ("recv_ns", whole t.recv_ns)
      ∷ ("symbol", text t.symbol)
      ∷ ("venue", text t.venue)
      ∷ ("bid_px", number t.bid_px)
      ∷ ("ask_px", number t.ask_px)
      ∷ ("bid_sz", number t.bid_sz)
      ∷ ("ask_sz", number t.ask_sz)
      ∷ ("ingested_at_ns", whole t.ingested_at_ns)
      ∷ []

  unfoldable pub book_snapshot_to_row : BookSnapshot F → List (String × Value F)
  book_snapshot_to_row t =
      ("ts_ns", whole t.ts_ns)
      ∷ ("recv_ns", whole t.recv_ns)
      ∷ ("symbol", text t.symbol)
      ∷ ("venue", text t.venue)
      ∷ ("depth", whole (pos t.depth))
      ∷ ("bids", levels t.bids)
      ∷ ("asks", levels t.asks)
      ∷ ("ingested_at_ns", whole t.ingested_at_ns)
      ∷ []

  unfoldable pub funding_to_row : Funding F → List (String × Value F)
  funding_to_row t =
      ("ts_ns", whole t.ts_ns)
      ∷ ("recv_ns", whole t.recv_ns)
      ∷ ("symbol", text t.symbol)
      ∷ ("venue", text t.venue)
      ∷ ("funding_rate", number t.funding_rate)
      ∷ ("mark_price", number_or_null t.mark_price)
      ∷ ("next_ts_ns", whole_or_null t.next_ts_ns)
      ∷ ("ingested_at_ns", whole t.ingested_at_ns)
      ∷ []

  unfoldable pub open_interest_to_row : OpenInterest F → List (String × Value F)
  open_interest_to_row t =
      ("ts_ns", whole t.ts_ns)
      ∷ ("recv_ns", whole t.recv_ns)
      ∷ ("symbol", text t.symbol)
      ∷ ("venue", text t.venue)
      ∷ ("oi_base", number_or_null t.oi_base)
      ∷ ("oi_quote", number_or_null t.oi_quote)
      ∷ ("ingested_at_ns", whole t.ingested_at_ns)
      ∷ []

-- What a stream yields.
pub data Item {ℓ} (F : Type ℓ) : Type ℓ where
  trade_item : Trade F → Item F
  quote_item : Quote F → Item F
  book_snapshot_item : BookSnapshot F → Item F
  funding_item : Funding F → Item F
  open_interest_item : OpenInterest F → Item F

module _ {ℓ} {F : Type ℓ} where
  unfoldable pub to_row : Item F → List (String × Value F)
  unfolding trade_to_row quote_to_row book_snapshot_to_row funding_to_row open_interest_to_row
  to_row (trade_item t) = trade_to_row t
  to_row (quote_item t) = quote_to_row t
  to_row (book_snapshot_item t) = book_snapshot_to_row t
  to_row (funding_item t) = funding_to_row t
  to_row (open_interest_item t) = open_interest_to_row t

  -- `_STREAM_TO_TABLE` of cryptodata/core/worker.py, by what the streams yield.
  unfoldable pub table_of : Item F → String
  table_of (trade_item t) = "trades"
  table_of (quote_item t) = "quotes"
  table_of (book_snapshot_item t) = "book_l2_snapshot"
  table_of (funding_item t) = "funding"
  table_of (open_interest_item t) = "open_interest"
