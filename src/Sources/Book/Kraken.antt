-- ===== src/Sources/Book/Kraken.antt =====
-- `stream_book` of cryptodata/sources/kraken.py. The state is `books` with `last_emit_ns`, by pair.
use Prim.Native.String.{String}
use crypto_data_aggregator.Prelude.{ℕ, Bool, Option, none, some, List, [], ◌∷◌, if◌then◌else◌}
use crypto_data_aggregator.Prelude.Order.{text_order}
use crypto_data_aggregator.Prelude.Dict
use crypto_data_aggregator.Prelude.Dict.{put}
use crypto_data_aggregator.Float.{Float}
use crypto_data_aggregator.Python.{
  Result, ok, raise, ◌>>=◌, Json, text, Python, get_or, get_is, iterate, float_item,
}
use crypto_data_aggregator.Rows.{BookSnapshot}
use crypto_data_aggregator.Sources.{Session, Emission, rows_of_channel, run_frames, empty_list}
use crypto_data_aggregator.Sources.Book.{
  Book, Side, bid_side, ask_side, set_side, empty_book, Tracked, tracked_or_new, is_early,
  snapshot_of, on_rows_with,
}
use crypto_data_aggregator.Sources.Kraken.{pair_of}

module _ {ℓ} {F : Type ℓ} ⦃fl : Float F⦄ where
  -- The book of a pair is set, and a snapshot is due once in an interval.
  unfoldable pub emit_due :
      Session
      → ℕ
      → String
      → String
      → ℕ
      → String
      → Tracked F
      → Book F
      → List (String × Tracked F)
      → Option (BookSnapshot F) × List (String × Tracked F)
  unfolding is_early snapshot_of put
  emit_due session i venue canonical depth pair tracked book books =
      if is_early session.recv_ns tracked
      then (none, put pair (record { book = book; last_emit_ns = tracked.last_emit_ns }) books)
      else (
        some (snapshot_of session i venue canonical depth book),
        put pair (record { book = book; last_emit_ns = session.recv_ns }) books,
      )

module _ {ℓ} {F : Type ℓ} ⦃fl : Float F⦄ ⦃py : Python F⦄ where
  -- `for lvl in b.get(side_key, [])`
  unfoldable pub set_levels : Side → List (Json F) → Book F → Result (Book F)
  unfolding set_side
  set_levels side [] book = ok book
  set_levels side (lvl ∷ lvls) book = do
    px ← float_item "price" lvl
    sz ← float_item "qty" lvl
    set_levels side lvls (set_side side px sz book)

  unfoldable pub update_book : Json F → Book F → Result (Book F)
  unfolding set_levels
  update_book b book = do
    bids ← get_or "bids" empty_list b >>= iterate
    with_bids ← set_levels bid_side bids book
    asks ← get_or "asks" empty_list b >>= iterate
    set_levels ask_side asks with_bids

  -- The rest of the turn for a known pair. A snapshot starts from an empty book.
  unfoldable pub on_pair :
      Session
      → ℕ
      → Bool
      → ℕ
      → List (String × Tracked F)
      → Json F
      → String
      → Option String
      → Result (Option (BookSnapshot F) × List (String × Tracked F))
  unfolding update_book emit_due Dict.get
  on_pair session depth is_snapshot i books b pair none = ok (none, books)
  on_pair session depth is_snapshot i books b pair (some canonical) =
      let tracked = tracked_or_new (Dict.get pair books) in
      update_book b (if is_snapshot then empty_book else tracked.book) >>= λ book.
      ok (emit_due session i "kraken" canonical depth pair tracked book books)

  -- One turn of `for b in msg.get("data", [])`.
  unfoldable pub on_book :
      Session
      → ℕ
      → Bool
      → ℕ
      → List (String × Tracked F)
      → Json F
      → Result (Option (BookSnapshot F) × List (String × Tracked F))
  unfolding on_pair
  on_book session depth is_snapshot i books b = do
    symbol ← get_or "symbol" (text "") b
    pair ← pair_of symbol
    on_pair session depth is_snapshot i books b pair (session.canon pair)

  abbrev pub on_typed :
      Session
      → ℕ
      → List (String × Tracked F)
      → Json F
      → Result Bool
      → Emission (BookSnapshot F) (List (String × Tracked F))
  on_typed session depth books msg (raise e) = ([], raise e)
  on_typed session depth books msg (ok is_snapshot) =
      on_rows_with (rows_of_channel "channel" "book" "data" msg) (on_book session depth is_snapshot)
        books

  unfoldable pub on_message :
      ℕ
      → Session
      → List (String × Tracked F)
      → Json F
      → Emission (BookSnapshot F) (List (String × Tracked F))
  unfolding rows_of_channel on_book
  on_message depth session books msg =
      on_typed session depth books msg (get_is "type" "snapshot" msg)

  unfoldable pub stream_book :
      ℕ
      → (ℕ → Session)
      → List (Option (Json F))
      → Emission (BookSnapshot F) (List (String × Tracked F))
  unfolding run_frames on_message
  stream_book depth sessions frames = run_frames (λ n. on_message depth (sessions n)) 0 [] frames
