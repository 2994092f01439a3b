-- ===== src/Sources/Bitfinex.antt =====
-- cryptodata/sources/bitfinex.py: Bitfinex spot. The state of a stream is the map from channel ids to
-- canonical names, one for each connection.
use Prim.Native.String.{String}
use crypto_data_aggregator.Prelude.{
  ℕ, Bool, false, not, length, ltb, leb, Option, none, some, List, [], ◌∷◌, ◌&&◌, ◌||◌,
  if◌then◌else◌,
}
use crypto_data_aggregator.Prelude.Int.{ℤ, pos, int_order}
use crypto_data_aggregator.Prelude.Order.{text_order, eq, gt}
use crypto_data_aggregator.Prelude.Dict
use crypto_data_aggregator.Float.{Float, nought, float_order}
use crypto_data_aggregator.Python.{
  Result, ok, raise, ◌>>=◌, Json, text, array, item_of, elements, Python, get_or, is_text, to_int,
  times, text_of, iterate, at, size_of, is_list, is_dict, is_str, int_item, float_at, int_at,
  get_is,
}
use crypto_data_aggregator.Rows.{Trade, Quote}
use crypto_data_aggregator.Sources.{
  Emission, Session, canonical_of, received_trade, received_quote, emit_row, run_frames, on_rows,
  when,
}

-- Whether a canonical name counts as true.
abbrev pub is_named : Option String → Bool
is_named none = false
is_named (some s) = not (eq s "")

abbrev pub with_chan {κ} :
    {B : Type κ} → List (ℤ × String) → Emission B (Unit {0}) → Emission B (List (ℤ × String))
with_chan chan (bs, raise e) = (bs, raise e)
with_chan chan (bs, ok s) = (bs, ok chan)

-- `if canonical is None: continue`, before the rows.
abbrev pub on_known {κ} :
    {B : Type κ}
    → List (ℤ × String)
    → Result (Option String)
    → (String → Emission B (Unit {0}))
    → Emission B (List (ℤ × String))
on_known chan (raise e) f = ([], raise e)
on_known chan (ok none) f = ([], ok chan)
on_known chan (ok (some canonical)) f = with_chan chan (f canonical)

module _ {ℓ} {F : Type ℓ} ⦃fl : Float F⦄ ⦃py : Python F⦄ where
  -- `to_canonical(msg.get("symbol", ""), self.name) or to_canonical(msg.get("pair", ""), self.name)`
  unfoldable pub subscribed_canonical : Session → Json F → Result (Option String)
  subscribed_canonical session msg = do
    symbol ← get_or "symbol" (text "") msg
    s ← text_of symbol
    if is_named (session.canon s)
        then ok (session.canon s)
        else (do pair ← get_or "pair" (text "") msg; canonical_of session pair)

  -- `if canonical: chan[int(msg["chanId"])] = canonical`
  unfoldable pub note_channel :
      Option String → Json F → List (ℤ × String) → Result (List (ℤ × String))
  note_channel none msg chan = ok chan
  note_channel (some canonical) msg chan =
      if eq canonical ""
      then ok chan
      else int_item "chanId" msg >>= λ cid. ok (Dict.put cid canonical chan)

  -- A message that is a dict.
  unfoldable pub on_event :
      String → Session → Json F → List (ℤ × String) → Result (List (ℤ × String))
  unfolding subscribed_canonical note_channel
  on_event channel session msg chan = do
    event ← get_is "event" "subscribed" msg
    same ← get_is "channel" channel msg
    if event && same
        then (do known ← subscribed_canonical session msg; note_channel known msg chan)
        else ok chan

  -- `chan.get(int(msg[0]))`, for a message that is a list of two or more.
  unfoldable pub channel_canonical : List (ℤ × String) → Json F → Result (Option String)
  channel_canonical chan msg = do cid ← int_at 0 msg; ok (Dict.get cid chan)

  -- `isinstance(payload, list) and payload and isinstance(payload[0], list)`
  unfoldable pub is_rows : Json F → Bool
  is_rows (array (item_of r rs)) = is_list r
  is_rows payload = false

  unfoldable pub payload_of : Json F → Result (Json F)
  payload_of msg = do n ← size_of msg; if ltb 2 n then at 2 msg else at 1 msg

  -- `isinstance(msg[1], str)` with a tag other than "te" and "tu".
  unfoldable pub is_other_tag : Json F → Bool
  is_other_tag tag = is_str tag && not (is_text "te" tag || is_text "tu" tag)

  unfoldable pub rows_of : Json F → Result (List (Json F))
  unfolding is_rows payload_of is_other_tag
  rows_of msg = do
    payload ← payload_of msg
    tag ← at 1 msg
    if is_other_tag tag
        then ok []
        else if is_rows payload
        then iterate payload
        else ok (payload ∷ [])

  -- Whether a row is a list of at least four.
  unfoldable pub is_full_row : Json F → Bool
  is_full_row (array js) = leb 4 (length (elements js))
  is_full_row r = false

  unfoldable pub trade_of : String → Session → ℕ → Json F → Result (Option (Trade F))
  unfolding is_full_row
  trade_of canonical session i r = when (is_full_row r) (do
    tid ← at 0 r
    mts ← at 1 r
    amount ← float_at 2 r
    price ← float_at 3 r
    ms ← to_int mts
    ok (
        some (
          received_trade session i "bitfinex" canonical (times ms 1_000_000) price
            (fl.magnitude amount) (gt amount nought) (py.str_of tid))))

  -- Whether a message is a list of two or more.
  unfoldable pub is_data : Json F → Bool
  is_data (array js) = leb 2 (length (elements js))
  is_data msg = false

  unfoldable pub on_trade_message :
      Session → List (ℤ × String) → Json F → Emission (Trade F) (List (ℤ × String))
  unfolding on_event is_data channel_canonical rows_of trade_of
  on_trade_message session chan msg =
      if is_dict msg
      then ([], on_event "trades" session msg chan)
      else if is_data msg
      then (on_known chan (channel_canonical chan msg)
          λ canonical. on_rows (rows_of msg) (trade_of canonical session))
      else ([], ok chan)

  unfoldable pub stream_trades :
      (ℕ → Session) → List (Option (Json F)) → Emission (Trade F) (List (ℤ × String))
  unfolding run_frames on_trade_message
  stream_trades sessions frames = run_frames (λ n. on_trade_message (sessions n)) 0 [] frames

  -- `isinstance(msg[1], list)`, for a list of two or more.
  unfoldable pub is_ticker : Json F → Bool
  is_ticker (array (item_of cid (item_of t rest))) = is_list t
  is_ticker msg = false

  unfoldable pub quote_of : String → Session → Json F → Result (Option (Quote F))
  quote_of canonical session msg = do
    t ← at 1 msg
    n ← size_of t
    when (leb 4 n) (do
      bid_px ← float_at 0 t
      bid_sz ← float_at 1 t
      ask_px ← float_at 2 t
      ask_sz ← float_at 3 t
      ok (
          some (
            received_quote session 0 "bitfinex" canonical (pos session.recv_ns) bid_px ask_px bid_sz
              ask_sz)))

  unfoldable pub on_quote_message :
      Session → List (ℤ × String) → Json F → Emission (Quote F) (List (ℤ × String))
  unfolding on_event is_ticker channel_canonical quote_of
  on_quote_message session chan msg =
      if is_dict msg
      then ([], on_event "ticker" session msg chan)
      else if is_ticker msg
      then (on_known chan (channel_canonical chan msg)
          λ canonical. emit_row (quote_of canonical session msg) ([], ok tt))
      else ([], ok chan)

  unfoldable pub stream_quotes :
      (ℕ → Session) → List (Option (Json F)) → Emission (Quote F) (List (ℤ × String))
  unfolding run_frames on_quote_message
  stream_quotes sessions frames = run_frames (λ n. on_quote_message (sessions n)) 0 [] frames
