-- ===== src/Sources/BinanceFutures.antt =====
-- cryptodata/sources/binance_futures.py: Binance USDT-M futures, for funding and open interest.
use Prim.Native.String.{String}
use crypto_data_aggregator.Prelude.{ℕ, Option, none, some, List, [], ◌∷◌, if◌then◌else◌}
use crypto_data_aggregator.Prelude.Int.{ℤ, pos, int_order}
use crypto_data_aggregator.Prelude.Order.{text_order}
use crypto_data_aggregator.Float.{Float, float_order}
use crypto_data_aggregator.Python.{
  Result, ok, ◌>>=◌, Json, Python, get, item, is_text, is_truthy, float_item,
}
use crypto_data_aggregator.Rows.{Funding, OpenInterest}
use crypto_data_aggregator.Sources.{
  Emission, Session, each_message, canonical_of, when_known, get_or_else, ms_to_ns, rows_if,
  for_rows,
}

module _ {ℓ} {F : Type ℓ} ⦃fl : Float F⦄ ⦃py : Python F⦄ where
  -- The guards of `stream_funding`.
  unfoldable pub funding_rows : Json F → Result (List (Json F))
  funding_rows msg = do
    d ← get_or_else "data" msg msg
    kind ← get "e" d
    rows_if (is_text "markPriceUpdate" kind) (ok (d ∷ []))

  -- `_ms_to_ns(data["T"]) if data.get("T") else None`
  unfoldable pub next_ts_ns_of : Json F → Result (Option ℤ)
  next_ts_ns_of d = do
    next ← get "T" d
    if is_truthy next then (ms_to_ns next >>= λ n. ok (some n)) else ok none

  unfoldable pub funding_of : Session → ℕ → Json F → Result (Option (Funding F))
  unfolding next_ts_ns_of
  funding_of session i d = do
    s ← item "s" d
    known ← canonical_of session s
    when_known known λ canonical. do
      ms ← item "E" d
      ts_ns ← ms_to_ns ms
      rate ← float_item "r" d
      mark ← float_item "p" d
      next ← next_ts_ns_of d
      ok (record {
        ts_ns = ts_ns;
        recv_ns = pos session.recv_ns;
        symbol = canonical;
        venue = "binance_futures";
        funding_rate = rate;
        mark_price = some mark;
        next_ts_ns = next;
        ingested_at_ns = pos (session.made_ns i);
      })

  unfoldable pub stream_funding :
      (ℕ → Session) → List (Option (Json F)) → Emission (Funding F) (Unit {0})
  unfolding each_message funding_rows funding_of
  stream_funding sessions frames = each_message sessions funding_rows funding_of frames

  abbrev on_body {κ} :
      {B : Type κ} → Option (Json F) → (Json F → Result (Option B)) → Result (Option B)
  on_body none f = ok none
  on_body (some body) f = f body

  -- One ticker of a poll; the response is `none` when its status is not 200.
  unfoldable pub open_interest_of :
      (String → Result (Option (Json F))) → Session → ℕ → String → Result (Option (OpenInterest F))
  open_interest_of server session i native = do
    resp ← server native
    on_body resp λ body. when_known (session.canon native) λ canonical. do
      ms ← item "time" body
      ts_ns ← ms_to_ns ms
      oi ← float_item "openInterest" body
      ok (record {
        ts_ns = ts_ns;
        recv_ns = pos session.recv_ns;
        symbol = canonical;
        venue = "binance_futures";
        oi_base = some oi;
        oi_quote = none;
        ingested_at_ns = pos (session.made_ns i);
      })

  -- One turn of `while True`, over the tickers in the order that the set gives them. An exception ends
  -- the turn and no more.
  unfoldable pub poll_open_interest :
      (String → Result (Option (Json F))) → Session → List String → List (OpenInterest F)
  unfolding for_rows open_interest_of
  poll_open_interest server session natives =
      (for_rows (open_interest_of server session) 0 natives).0
