-- ===== src/Sources/Bybit.antt =====
-- cryptodata/sources/bybit.py: Bybit linear perpetuals.
use Prim.Native.String.{String}
use crypto_data_aggregator.Prelude.{
  ℕ, ◌/◌, Bool, Option, none, some, List, [], ◌∷◌, ◌&&◌, if◌then◌else◌,
}
use crypto_data_aggregator.Prelude.Int.{ℤ, pos, int_order}
use crypto_data_aggregator.Prelude.Order.{text_order, eq}
use crypto_data_aggregator.Float.{Float, float_order}
use crypto_data_aggregator.Python.{
  Result, ok, ◌>>=◌, Json, integer, text, Python, get, get_or, item, is_truthy, to_int, times, has,
  text_of, iterate, at, float_item, str_get, get_is,
}
use crypto_data_aggregator.Rows.{Trade, Quote, Funding, OpenInterest}
use crypto_data_aggregator.Sources.{
  Emission, Session, each_message, canonical_of, when_known, received_trade, received_quote,
  get_or_else, ms_to_ns, rows_if, top_of_book, empty_list, empty_dict, for_rows, when,
}

module _ {ℓ} {F : Type ℓ} ⦃fl : Float F⦄ ⦃py : Python F⦄ where
  -- The guard on the topic.
  unfoldable pub has_topic : String → Json F → Result Bool
  has_topic prefix msg = do
    topic ← get_or "topic" (text "") msg
    s ← text_of topic
    ok (py.is_prefix prefix s)

  unfoldable pub trade_rows : Json F → Result (List (Json F))
  unfolding has_topic
  trade_rows msg = do
    c ← has_topic "publicTrade." msg
    rows_if c (get_or "data" empty_list msg >>= iterate)

  unfoldable pub trade_of : Session → ℕ → Json F → Result (Option (Trade F))
  trade_of session i t = do
    s ← item "s" t
    known ← canonical_of session s
    when_known known λ canonical. do
      is_buy ← get_is "S" "Buy" t
      ms ← item "T" t
      ts_ns ← ms_to_ns ms
      price ← float_item "p" t
      size ← float_item "v" t
      id ← str_get "i" t
      ok (received_trade session i "bybit" canonical ts_ns price size is_buy id)

  unfoldable pub stream_trades :
      (ℕ → Session) → List (Option (Json F)) → Emission (Trade F) (Unit {0})
  unfolding each_message trade_rows trade_of
  stream_trades sessions frames = each_message sessions trade_rows trade_of frames

  -- The message, if its topic is right.
  unfoldable pub topic_rows : String → Json F → Result (List (Json F))
  unfolding has_topic
  topic_rows prefix msg = do c ← has_topic prefix msg; rows_if c (ok (msg ∷ []))

  -- `_ms_to_ns(msg.get("ts", recv_ns // 1_000_000))`
  unfoldable pub message_ts_ns : Session → Json F → Result ℤ
  message_ts_ns session msg =
      get_or "ts" (integer (pos (session.recv_ns / 1_000_000))) msg >>= ms_to_ns

  unfoldable pub quote_of : Session → ℕ → Json F → Result (Option (Quote F))
  unfolding message_ts_ns
  quote_of session i msg = do
    d ← get_or_else "data" empty_dict msg
    bids ← get_or_else "b" empty_list d
    asks ← get_or_else "a" empty_list d
    when (is_truthy bids && is_truthy asks) (do
      s ← get_or "s" (text "") d
      known ← canonical_of session s
      when_known known λ canonical. do
        ts_ns ← message_ts_ns session msg
        bid_px ← top_of_book 0 bids
        ask_px ← top_of_book 0 asks
        bid_sz ← top_of_book 1 bids
        ask_sz ← top_of_book 1 asks
        ok (received_quote session i "bybit" canonical ts_ns bid_px ask_px bid_sz ask_sz))

  unfoldable pub stream_quotes :
      (ℕ → Session) → List (Option (Json F)) → Emission (Quote F) (Unit {0})
  unfolding each_message topic_rows quote_of
  stream_quotes sessions frames = each_message sessions (topic_rows "orderbook.1.") quote_of frames

  -- `float(d[k]) if d.get(k) else None`
  unfoldable pub float_if_given : String → Json F → Result (Option F)
  float_if_given k d = do
    given ← get k d
    if is_truthy given then (float_item k d >>= λ x. ok (some x)) else ok none

  unfoldable pub funding_of : Session → ℕ → Json F → Result (Option (Funding F))
  unfolding message_ts_ns float_if_given
  funding_of session i msg = do
    d ← get_or_else "data" empty_dict msg
    given ← has "fundingRate" d
    when given (do
      s ← get_or "symbol" (text "") d
      known ← canonical_of session s
      when_known known λ canonical. do
        next ← get_or_else "nextFundingTime" (integer (pos 0)) d
        next_ms ← to_int next
        ts_ns ← message_ts_ns session msg
        rate ← float_item "fundingRate" d
        mark ← float_if_given "markPrice" d
        ok (record {
          ts_ns = ts_ns;
          recv_ns = pos session.recv_ns;
          symbol = canonical;
          venue = "bybit";
          funding_rate = rate;
          mark_price = mark;
          next_ts_ns = if eq next_ms (pos 0) then none else some (times next_ms 1_000_000);
          ingested_at_ns = pos (session.made_ns i);
        }))

  unfoldable pub stream_funding :
      (ℕ → Session) → List (Option (Json F)) → Emission (Funding F) (Unit {0})
  unfolding each_message topic_rows funding_of
  stream_funding sessions frames = each_message sessions (topic_rows "tickers.") funding_of frames

  abbrev on_body {κ} :
      {B : Type κ} → Option (Json F) → (Json F → Result (Option B)) → Result (Option B)
  on_body none f = ok none
  on_body (some body) f = f body

  -- One ticker of a poll; the response is `none` when its status is not 200.
  unfoldable pub open_interest_of :
      (String → Result (Option (Json F))) → Session → ℕ → String → Result (Option (OpenInterest F))
  open_interest_of server session i native = do
    resp ← server native
    on_body resp λ body. do
      result ← get_or_else "result" empty_dict body
      rows ← get_or_else "list" empty_list result
      when (is_truthy rows) (
          when_known (session.canon native) λ canonical. do
            r ← at 0 rows
            ms ← item "timestamp" r
            ts_ns ← ms_to_ns ms
            oi ← float_item "openInterest" r
            ok (record {
              ts_ns = ts_ns;
              recv_ns = pos session.recv_ns;
              symbol = canonical;
              venue = "bybit";
              oi_base = some oi;
              oi_quote = none;
              ingested_at_ns = pos (session.made_ns i);
            }))

  -- One turn of `while True`, over the tickers in the order that the set gives them. An exception ends
  -- the turn and no more.
  unfoldable pub poll_open_interest :
      (String → Result (Option (Json F))) → Session → List String → List (OpenInterest F)
  unfolding for_rows open_interest_of
  poll_open_interest server session natives =
      (for_rows (open_interest_of server session) 0 natives).0
