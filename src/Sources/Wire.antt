-- ===== src/Sources/Wire.antt =====
-- OKX's messages of trades as the venue documents them, and the trades that they stand for.
use Prim.Native.String.{String}
use crypto_data_aggregator.Prelude.{
  ℕ, ◌+◌, ◌*◌, ◌≡◌, refl, ap, ◌∙◌, ◌++◌, Bool, true, false, Option, none, some, List, [], ◌∷◌, All,
  if◌then◌else◌,
}
use crypto_data_aggregator.Prelude.Int.{pos}
use crypto_data_aggregator.Prelude.Order.{text_order, text_le}
use crypto_data_aggregator.Float.{Float}
use crypto_data_aggregator.Rows.{Trade}
use crypto_data_aggregator.Python.{
  ok, ◌>>=◌, Json, text, array, object, member, no_members, Python, items_of, get_or, item, is_text,
  is_truthy, or_else, to_int, to_float, int_item, float_item, str_get, text_of, times, iterate,
  elements,
}
use crypto_data_aggregator.Sources.{
  Session, received_trade, each_message, run_frames, for_rows, on_rows, when_known, canonical_of,
  get_or_else, and_then,
}
use crypto_data_aggregator.Sources.Okx

-- A trade as the venue knows it.
pub record Fill {ℓ} (F : Type ℓ) : Type ℓ where
  pub inst_id : String
  pub ms : ℕ
  pub px : F
  pub sz : F
  pub is_buy : Bool
  pub trade_id : String

module _ {ℓ} {F : Type ℓ} (show_ms : ℕ → String) (show_float : F → String) where
  abbrev pub fill_row : Fill F → Json F
  fill_row w = object (
      member "instId" (text w.inst_id) (
        member "tradeId" (text w.trade_id) (
          member "px" (text (show_float w.px)) (
            member "sz" (text (show_float w.sz)) (
              member "side" (text (if w.is_buy then "buy" else "sell"))
                (member "ts" (text (show_ms w.ms)) no_members))))))

  abbrev pub fill_rows : List (Fill F) → List (Json F)
  fill_rows [] = []
  fill_rows (w ∷ ws) = fill_row w ∷ fill_rows ws

  -- `{"arg": {"channel": "trades", "instId": ...}, "data": [...]}`
  abbrev pub okx_message : String → List (Fill F) → Json F
  okx_message inst_id ws = object (
      member "arg"
        (object (member "channel" (text "trades") (member "instId" (text inst_id) no_members)))
        (member "data" (array (items_of (fill_rows ws))) no_members))

module _ {ℓ} {F : Type ℓ} where
  -- The trades of a message, made from the `i`-th row on, by the canonical names of their tickers.
  abbrev pub trades_of : Session → (String → String) → ℕ → List (Fill F) → List (Trade F)
  trades_of session name i [] = []
  trades_of session name i (w ∷ ws) =
      received_trade session i "okx" (name w.inst_id) (pos (w.ms * 1_000_000)) w.px w.sz w.is_buy
        w.trade_id
      ∷ trades_of session name (i + 1) ws

  elements-items_of : (js : List (Json F)) → elements (items_of js) ≡ js
  elements-items_of [] = refl
  elements-items_of (j ∷ js) = ap (◌∷◌ j) (elements-items_of js)

side-is_buy {ℓ} :
    (F : Type ℓ) (b : Bool) → is_text {F = F} "buy" (text (if b then "buy" else "sell")) ≡ b
unfolding is_text text_le
side-is_buy F true = refl
side-is_buy F false = refl

module _ {ℓ} {F : Type ℓ} ⦃fl : Float F⦄ ⦃py : Python F⦄ (show_ms : ℕ → String)
    (show_float : F → String) (int_of : (n : ℕ) → py.int_of_text (show_ms n) ≡ some (pos n))
    (float_of : (x : F) → py.float_of_text (show_float x) ≡ some x)
    (str_of : (s : String) → py.str_of (text s) ≡ s) (session : Session)
    (name : String → String) where
  fill_row-trade :
      (i : ℕ) (w : Fill F)
      → session.canon w.inst_id ≡ some (name w.inst_id)
      → Okx.trade_of session i (fill_row show_ms show_float w)
        ≡ ok (
            some (
              received_trade session i "okx"
                (name w.inst_id)
                (pos (w.ms * 1_000_000))
                w.px
                w.sz
                w.is_buy
                w.trade_id))
  unfolding Okx.trade_of ◌>>=◌ canonical_of when_known int_item float_item str_get get_or item
      text_of to_int to_float times text_le
  fill_row-trade i w known =
      rw (known, int_of w.ms, float_of w.px, float_of w.sz, str_of w.trade_id)
        (rw (side-is_buy F w.is_buy) refl)

  for_rows-fill_rows :
      (i : ℕ) (ws : List (Fill F))
      → All (λ w. session.canon w.inst_id ≡ some (name w.inst_id)) ws
      → for_rows (Okx.trade_of session) i (fill_rows show_ms show_float ws)
        ≡ (trades_of session name i ws, ok tt)
  unfolding for_rows
  for_rows-fill_rows i [] h = refl
  for_rows-fill_rows i (w ∷ ws) h =
      rw (fill_row-trade i w h.0, for_rows-fill_rows (i + 1) ws h.1) refl

  okx_message-rows :
      (inst_id : String) (ws : List (Fill F))
      → Okx.channel_rows "trades" (okx_message show_ms show_float inst_id ws)
        ≡ ok (fill_rows show_ms show_float ws)
  unfolding Okx.channel_rows Okx.arg_of ◌>>=◌ get_or_else or_else is_truthy is_text get_or iterate
      text_le
  okx_message-rows inst_id ws = ap ok (elements-items_of (fill_rows show_ms show_float ws))

-- What the socket delivers: messages of an instrument's trades, or frames that are no JSON.
module _ {ℓ} {F : Type ℓ} where
  abbrev pub okx_frame :
      (ℕ → String) → (F → String) → Option (String × List (Fill F)) → Option (Json F)
  okx_frame show_ms show_float none = none
  okx_frame show_ms show_float (some (inst_id, ws)) =
      some (okx_message show_ms show_float inst_id ws)

  abbrev pub okx_frames :
      (ℕ → String) → (F → String) → List (Option (String × List (Fill F))) → List (Option (Json F))
  okx_frames show_ms show_float [] = []
  okx_frames show_ms show_float (m ∷ ms) =
      okx_frame show_ms show_float m ∷ okx_frames show_ms show_float ms

  abbrev pub frame_trades :
      Session → (String → String) → Option (String × List (Fill F)) → List (Trade F)
  frame_trades session name none = []
  frame_trades session name (some (inst_id, ws)) = trades_of session name 0 ws

  -- The trades of all messages from the `n`-th on.
  abbrev pub sent_trades :
      (ℕ → Session)
      → (String → String)
      → ℕ
      → List (Option (String × List (Fill F)))
      → List (Trade F)
  sent_trades sessions name n [] = []
  sent_trades sessions name n (m ∷ ms) =
      frame_trades (sessions n) name m ++ sent_trades sessions name (n + 1) ms

  -- Every trade of a message is of a ticker whose canonical name is known.
  abbrev pub IsNamed :
      (ℕ → Session) → (String → String) → ℕ → List (Option (String × List (Fill F))) → Type 0
  IsNamed sessions name n [] = Unit
  IsNamed sessions name n (none ∷ ms) = IsNamed sessions name (n + 1) ms
  IsNamed sessions name n (some (inst_id, ws) ∷ ms) =
      All (λ w. (sessions n).canon w.inst_id ≡ some (name w.inst_id)) ws
      × IsNamed sessions name (n + 1) ms

module _ {ℓ} {F : Type ℓ} ⦃fl : Float F⦄ ⦃py : Python F⦄ (show_ms : ℕ → String)
    (show_float : F → String) (int_of : (n : ℕ) → py.int_of_text (show_ms n) ≡ some (pos n))
    (float_of : (x : F) → py.float_of_text (show_float x) ≡ some x)
    (str_of : (s : String) → py.str_of (text s) ≡ s) (sessions : ℕ → Session)
    (name : String → String) where
  okx_message-trades :
      (n : ℕ) (inst_id : String) (ws : List (Fill F))
      → All (λ w. (sessions n).canon w.inst_id ≡ some (name w.inst_id)) ws
      → on_rows
          (Okx.channel_rows "trades" (okx_message show_ms show_float inst_id ws))
          (Okx.trade_of (sessions n))
        ≡ (trades_of (sessions n) name 0 ws, ok tt)
  okx_message-trades n inst_id ws h =
      ap (λ r. on_rows r (Okx.trade_of (sessions n)))
        (okx_message-rows show_ms show_float int_of float_of str_of (sessions n) name inst_id ws)
      ∙ for_rows-fill_rows show_ms show_float int_of float_of str_of (sessions n) name 0 ws h

  run-okx_frames :
      (n : ℕ) (ms : List (Option (String × List (Fill F))))
      → IsNamed sessions name n ms
      → run_frames
          (λ k s msg. on_rows (Okx.channel_rows "trades" msg) (Okx.trade_of (sessions k)))
          n
          tt
          (okx_frames show_ms show_float ms)
        ≡ (sent_trades sessions name n ms, ok tt)
  unfolding run_frames
  run-okx_frames n [] h = refl
  run-okx_frames n (none ∷ ms) h = run-okx_frames (n + 1) ms h
  run-okx_frames n (some (inst_id, ws) ∷ ms) h =
      ap
        (λ e. and_then e λ t.
          run_frames
            (λ k s msg. on_rows (Okx.channel_rows "trades" msg) (Okx.trade_of (sessions k))) (n + 1)
            t (okx_frames show_ms show_float ms))
        (okx_message-trades n inst_id ws h.0)
      ∙ ap (λ e. (trades_of (sessions n) name 0 ws ++ e.0, e.1)) (run-okx_frames (n + 1) ms h.1)

  -- If `int`, `float` and `str` read back what the venue prints, and every ticker is known, then OKX's
  -- stream yields exactly the trades that the venue sends, in their order, each with the venue's price,
  -- size, side, identifier and time in ns; frames that are no JSON are passed over; and nothing is raised.
  pub stream_trades-okx_frames :
      (ms : List (Option (String × List (Fill F))))
      → IsNamed sessions name 0 ms
      → Okx.stream_trades sessions (okx_frames show_ms show_float ms)
        ≡ (sent_trades sessions name 0 ms, ok tt)
  unfolding Okx.stream_trades each_message
  stream_trades-okx_frames ms h = run-okx_frames 0 ms h
