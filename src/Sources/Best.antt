-- ===== src/Sources/Best.antt =====
-- `stream_quotes` of cryptodata/sources/gemini.py. The state is `best`, by the ticker as it was sent.
pub mod Floor
use Prim.Native.String.{String}
use crypto_data_aggregator.Prelude.{
  ℕ, Bool, Option, none, some, List, [], ◌∷◌, ◌||◌, ◌&&◌, if◌then◌else◌,
}
use crypto_data_aggregator.Prelude.Int.{pos}
use crypto_data_aggregator.Prelude.Order.{Order, ◌≼◌, text_order, eq, lt}
use crypto_data_aggregator.Prelude.Dict
use crypto_data_aggregator.Prelude.Dict.{put}
use crypto_data_aggregator.Float.{Float, float_order, nought}
use crypto_data_aggregator.Python.{
  Result, ok, raise, ◌>>=◌, Json, text, Python, get_or, get_is, is_text, iterate, to_float, text_of,
  value_error,
}
use crypto_data_aggregator.Rows.{Quote}
use crypto_data_aggregator.Sources.{Emission, Session, run_frames, received_quote, empty_list}
use crypto_data_aggregator.Sources.Gemini.{either_canonical}

pub record Best {ℓ} (F : Type ℓ) : Type ℓ where
  pub bid : F
  pub ask : F
  pub bid_sz : F
  pub ask_sz : F

-- `for side, price, qty in ...`
abbrev pub three {ℓ} : {A : Type ℓ} → List A → Result (A × (A × A))
three (a ∷ b ∷ c ∷ []) = ok (a, (b, c))
three l = raise value_error

module _ {ℓ} {F : Type ℓ} ⦃fl : Float F⦄ where
  abbrev pub no_best : Best F
  no_best = record { bid = nought; ask = nought; bid_sz = nought; ask_sz = nought }

  abbrev pub best_or_new : Option (Best F) → Best F
  best_or_new none = no_best
  best_or_new (some b) = b

  -- One change of a side, a price and a quantity.
  unfoldable pub changed : Json F → F → F → Best F → Best F
  unfolding is_text
  changed side px q b =
      if eq q nought
      then b
      else if is_text "buy" side && fl.order.le b.bid px
      then record { bid = px; ask = b.ask; bid_sz = q; ask_sz = b.ask_sz }
      else if is_text "sell" side && (eq b.ask nought || fl.order.le px b.ask)
      then record { bid = b.bid; ask = px; bid_sz = b.bid_sz; ask_sz = q }
      else b

module _ {ℓ} {F : Type ℓ} ⦃fl : Float F⦄ ⦃py : Python F⦄ where
  -- `for side, price, qty in msg.get("changes", [])`
  unfoldable pub apply_changes : List (Json F) → Best F → Result (Best F)
  unfolding changed
  apply_changes [] b = ok b
  apply_changes (c ∷ cs) b = do
    parts ← iterate c
    entry ← three parts
    px ← to_float entry.1.0
    q ← to_float entry.1.1
    apply_changes cs (changed entry.0 px q b)

  -- `if b["bid"] > 0 and b["ask"] > 0`
  abbrev pub quote_of : Session → String → Best F → List (Quote F)
  quote_of session canonical b =
      if lt nought b.bid && lt nought b.ask
      then (received_quote session 0 "gemini" canonical (pos session.recv_ns) b.bid b.ask b.bid_sz
            b.ask_sz
          ∷ [])
      else []

  -- The rest of a turn, once the ticker has been looked up.
  abbrev pub on_ticker :
      Session
      → List (String × Best F)
      → String
      → String
      → Result (Best F)
      → Emission (Quote F) (List (String × Best F))
  on_ticker session best sym canonical (raise e) = ([], raise e)
  on_ticker session best sym canonical (ok b) = (quote_of session canonical b, ok (put sym b best))

  abbrev pub on_canonical :
      Session
      → List (String × Best F)
      → Json F
      → String
      → Option String
      → Emission (Quote F) (List (String × Best F))
  on_canonical session best msg sym none = ([], ok best)
  on_canonical session best msg sym (some canonical) = on_ticker session best sym canonical (
      get_or "changes" empty_list msg >>= iterate >>= λ changes.
      apply_changes changes (best_or_new (Dict.get sym best)))

  -- The type, the ticker and the canonical name of a message of updates.
  unfoldable pub ticker_of : Session → Json F → Result (Option (String × Option String))
  unfolding either_canonical
  ticker_of session msg = do
    c ← get_is "type" "l2_updates" msg
    if c
        then (do
          sym ← get_or "symbol" (text "") msg
          s ← text_of sym
          known ← either_canonical session sym
          ok (some (s, known)))
        else ok none

  abbrev pub on_update :
      Session
      → List (String × Best F)
      → Json F
      → Result (Option (String × Option String))
      → Emission (Quote F) (List (String × Best F))
  on_update session best msg (raise e) = ([], raise e)
  on_update session best msg (ok none) = ([], ok best)
  on_update session best msg (ok (some (sym, known))) = on_canonical session best msg sym known

  unfoldable pub on_message :
      Session → List (String × Best F) → Json F → Emission (Quote F) (List (String × Best F))
  unfolding apply_changes ticker_of put Dict.get
  on_message session best msg = on_update session best msg (ticker_of session msg)

  -- The stream from a state on, its frames counted from the `n`-th.
  unfoldable pub quotes_from :
      (ℕ → Session)
      → ℕ
      → List (String × Best F)
      → List (Option (Json F))
      → Emission (Quote F) (List (String × Best F))
  unfolding run_frames on_message
  quotes_from sessions n best frames = run_frames (λ k. on_message (sessions k)) n best frames

  unfoldable pub stream_quotes :
      (ℕ → Session) → List (Option (Json F)) → Emission (Quote F) (List (String × Best F))
  unfolding quotes_from
  stream_quotes sessions frames = quotes_from sessions 0 [] frames
