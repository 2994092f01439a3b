-- ===== src/Sources/Okx.antt =====
-- cryptodata/sources/okx.py: OKX spot.
use Prim.Native.String.{String}
use crypto_data_aggregator.Prelude.{ℕ, Option, none, some, List, [], ◌∷◌, ◌&&◌, if◌then◌else◌}
use crypto_data_aggregator.Prelude.Int.{int_order}
use crypto_data_aggregator.Prelude.Order.{text_order}
use crypto_data_aggregator.Float.{Float, float_order}
use crypto_data_aggregator.Python.{
  Result, ok, ◌>>=◌, Json, Python, get, get_or, item, is_text, is_truthy, times, iterate,
  float_item, int_item, str_get, get_is,
}
use crypto_data_aggregator.Rows.{Trade, Quote}
use crypto_data_aggregator.Sources.{
  Emission, Session, each_message, canonical_of, when_known, received_trade, received_quote,
  get_or_else, rows_if, top_of_book, empty_list, empty_dict, run_frames, on_rows, when,
}

module _ {ℓ} {F : Type ℓ} ⦃fl : Float F⦄ ⦃py : Python F⦄ where
  -- `(msg.get("arg") or {}).get(k)`
  unfoldable pub arg_of : String → Json F → Result (Json F)
  arg_of k msg = get_or_else "arg" empty_dict msg >>= get k

  -- The guard on the channel, and `msg.get("data", [])`.
  unfoldable pub channel_rows : String → Json F → Result (List (Json F))
  unfolding arg_of
  channel_rows channel msg = do
    c ← arg_of "channel" msg
    rows_if (is_text channel c) (get_or "data" empty_list msg >>= iterate)

  unfoldable pub trade_of : Session → ℕ → Json F → Result (Option (Trade F))
  trade_of session i t = do
    inst_id ← item "instId" t
    known ← canonical_of session inst_id
    when_known known λ canonical. do
      ms ← int_item "ts" t
      price ← float_item "px" t
      size ← float_item "sz" t
      is_buy ← get_is "side" "buy" t
      id ← str_get "tradeId" t
      ok (received_trade session i "okx" canonical (times ms 1_000_000) price size is_buy id)

  unfoldable pub stream_trades :
      (ℕ → Session) → List (Option (Json F)) → Emission (Trade F) (Unit {0})
  unfolding each_message channel_rows trade_of
  stream_trades sessions frames = each_message sessions (channel_rows "trades") trade_of frames

  -- `to_canonical(inst_id, self.name) if inst_id else None`
  unfoldable pub inst_canonical : Session → Json F → Result (Option String)
  inst_canonical session inst_id =
      if is_truthy inst_id then canonical_of session inst_id else ok none

  abbrev named : String → List (Json F) → List (String × Json F)
  named canonical [] = []
  named canonical (d ∷ ds) = (canonical, d) ∷ named canonical ds

  abbrev if_known : Option String → Result (List (Json F)) → Result (List (String × Json F))
  if_known none rows = ok []
  if_known (some canonical) rows = rows >>= λ ds. ok (named canonical ds)

  -- The rows of a message of a known instrument, each with the canonical name.
  unfoldable pub quote_rows : Session → Json F → Result (List (String × Json F))
  unfolding arg_of channel_rows inst_canonical
  quote_rows session msg = do
    c ← arg_of "channel" msg
    if is_text "bbo-tbt" c
        then (do
          inst_id ← arg_of "instId" msg
          known ← inst_canonical session inst_id
          if_known known (get_or "data" empty_list msg >>= iterate))
        else ok []

  unfoldable pub quote_of : Session → ℕ → String × Json F → Result (Option (Quote F))
  quote_of session i (canonical, d) = do
    bids ← get_or_else "bids" empty_list d
    asks ← get_or_else "asks" empty_list d
    when (is_truthy bids && is_truthy asks) (do
      ms ← int_item "ts" d
      bid_px ← top_of_book 0 bids
      ask_px ← top_of_book 0 asks
      bid_sz ← top_of_book 1 bids
      ask_sz ← top_of_book 1 asks
      ok (
          some (
            received_quote session i "okx" canonical (times ms 1_000_000) bid_px ask_px bid_sz
              ask_sz)))

  unfoldable pub stream_quotes :
      (ℕ → Session) → List (Option (Json F)) → Emission (Quote F) (Unit {0})
  unfolding run_frames quote_rows quote_of
  stream_quotes sessions frames =
      run_frames (λ n s msg. on_rows (quote_rows (sessions n) msg) (quote_of (sessions n))) 0 tt
        frames
