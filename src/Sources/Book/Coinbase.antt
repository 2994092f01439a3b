-- ===== src/Sources/Book/Coinbase.antt =====
-- `stream_book` of cryptodata/sources/coinbase.py. The state is `books` with `last_emit_ns`, by product.
use Prim.Native.String.{String}
use crypto_data_aggregator.Prelude.{ℕ, Option, none, some, List, [], ◌∷◌, if◌then◌else◌}
use crypto_data_aggregator.Prelude.Order.{text_order}
use crypto_data_aggregator.Prelude.Dict
use crypto_data_aggregator.Prelude.Dict.{put}
use crypto_data_aggregator.Float.{Float}
use crypto_data_aggregator.Python.{
  Result, ok, raise, ◌>>=◌, Json, text, array, object, Python, get, get_or, is_text, item, iterate,
  float_item, key_error, type_error,
}
use crypto_data_aggregator.Rows.{BookSnapshot}
use crypto_data_aggregator.Sources.{Session, Emission, rows_of_channel, run_frames, empty_list}
use crypto_data_aggregator.Sources.Book.{
  Book, Side, bid_side, ask_side, set_side, Tracked, untracked, is_early, snapshot_of, on_rows_with,
}

module _ {ℓ} {F : Type ℓ} where
  -- `books[pid][side]`
  unfoldable pub side_named : Json F → Result Side
  unfolding is_text
  side_named (array js) = raise type_error
  side_named (object ms) = raise type_error
  side_named j =
      if is_text "bid" j
      then ok bid_side
      else if is_text "offer" j
      then ok ask_side
      else raise key_error

  -- `pid in books` asks for a hash; only texts are keys.
  abbrev pub key_of : Json F → Result (Option String)
  key_of (text s) = ok (some s)
  key_of (array js) = raise type_error
  key_of (object ms) = raise type_error
  key_of j = ok none

  -- `books` and `last_emit_ns` at the start.
  unfoldable pub new_books : List String → List (String × Tracked F)
  unfolding put
  new_books [] = []
  new_books (p ∷ product_ids) = put p untracked (new_books product_ids)

module _ {ℓ} {F : Type ℓ} ⦃fl : Float F⦄ ⦃py : Python F⦄ where
  -- `for u in ev.get("updates", [])`
  unfoldable pub set_updates : List (Json F) → Book F → Result (Book F)
  unfolding set_side side_named
  set_updates [] book = ok book
  set_updates (u ∷ us) book = do
    named ← item "side" u
    px ← float_item "price_level" u
    sz ← float_item "new_quantity" u
    side ← side_named named
    set_updates us (set_side side px sz book)

  abbrev pub snapshot_if_known : Session → ℕ → ℕ → Book F → Option String → Option (BookSnapshot F)
  snapshot_if_known session i depth book none = none
  snapshot_if_known session i depth book (some canonical) =
      some (snapshot_of session i "coinbase" canonical depth book)

  -- The clock of a product is set when a snapshot is due, before its name is looked up.
  unfoldable pub emit_due :
      Session
      → ℕ
      → ℕ
      → String
      → Tracked F
      → Book F
      → List (String × Tracked F)
      → Option (BookSnapshot F) × List (String × Tracked F)
  unfolding is_early snapshot_of put
  emit_due session i depth pid tracked book books =
      if is_early session.recv_ns tracked
      then (none, put pid (record { book = book; last_emit_ns = tracked.last_emit_ns }) books)
      else (
        snapshot_if_known session i depth book (session.canon pid),
        put pid (record { book = book; last_emit_ns = session.recv_ns }) books,
      )

  abbrev pub on_product :
      Session
      → ℕ
      → ℕ
      → List (String × Tracked F)
      → Json F
      → String
      → Option (Tracked F)
      → Result (Option (BookSnapshot F) × List (String × Tracked F))
  on_product session depth i books ev pid none = ok (none, books)
  on_product session depth i books ev pid (some tracked) = do
    updates ← get_or "updates" empty_list ev >>= iterate
    book ← set_updates updates tracked.book
    ok (emit_due session i depth pid tracked book books)

  abbrev pub on_key :
      Session
      → ℕ
      → ℕ
      → List (String × Tracked F)
      → Json F
      → Option String
      → Result (Option (BookSnapshot F) × List (String × Tracked F))
  on_key session depth i books ev none = ok (none, books)
  on_key session depth i books ev (some pid) =
      on_product session depth i books ev pid (Dict.get pid books)

  -- One turn of `for ev in msg.get("events", [])`.
  unfoldable pub on_event :
      Session
      → ℕ
      → ℕ
      → List (String × Tracked F)
      → Json F
      → Result (Option (BookSnapshot F) × List (String × Tracked F))
  unfolding set_updates emit_due Dict.get
  on_event session depth i books ev = do
    product ← get "product_id" ev
    key ← key_of product
    on_key session depth i books ev key

  unfoldable pub on_message :
      ℕ
      → Session
      → List (String × Tracked F)
      → Json F
      → Emission (BookSnapshot F) (List (String × Tracked F))
  unfolding rows_of_channel on_event
  on_message depth session books msg =
      on_rows_with (rows_of_channel "channel" "l2_data" "events" msg) (on_event session depth) books

  unfoldable pub stream_book :
      List String
      → ℕ
      → (ℕ → Session)
      → List (Option (Json F))
      → Emission (BookSnapshot F) (List (String × Tracked F))
  unfolding run_frames on_message new_books
  stream_book product_ids depth sessions frames =
      run_frames (λ n. on_message depth (sessions n)) 0 (new_books product_ids) frames
