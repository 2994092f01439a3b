-- ===== src/Sources/Book/Snapshots.antt =====
-- The streams of order books of Kraken and Coinbase.
use Prim.Native.String.{String}
use crypto_data_aggregator.Prelude.{
  if◌then◌else◌, ℕ, ◌≡◌, refl, inl, inr, Bool-cases, Bool, true, false, Option, none, some, List,
  [], ◌∷◌,
}
use crypto_data_aggregator.Prelude.Order.{text_order}
use crypto_data_aggregator.Prelude.Dict.{get, All-put, All-get}
use crypto_data_aggregator.Float.{Float}
use crypto_data_aggregator.Python.{Result, ok, raise, Json, Python}
use crypto_data_aggregator.Python.Results.{
  Ensures, holds, raises, IsNoneOr, Ensures-read, Ensures-bind,
}
use crypto_data_aggregator.Rows.{BookSnapshot}
use crypto_data_aggregator.Sources.{Session}
use crypto_data_aggregator.Sources.Yields.{Yields, run_frames-Yields}
use crypto_data_aggregator.Sources.Book.{
  Book, Side, bid_side, ask_side, Tracked, tracked_or_new, empty_book, is_early,
}
use crypto_data_aggregator.Sources.Book.Invariant.{
  IsBook, IsSnapshot, set_side-IsBook, snapshot_of-IsSnapshot, empty_book-IsBook,
}
use crypto_data_aggregator.Sources.Book.Turns.{
  IsTurn, AreBooks, on_rows_with-Yields, tracked_or_new-IsBook,
}
use crypto_data_aggregator.Sources.Book.Kraken
use crypto_data_aggregator.Sources.Book.Coinbase

new_books-AreBooks {ℓ} :
    (F : Type ℓ) ⦃fl : Float F⦄ (product_ids : List String)
    → AreBooks {F = F} (Coinbase.new_books product_ids)
unfolding Coinbase.new_books
new_books-AreBooks F [] = tt
new_books-AreBooks F (p ∷ product_ids) =
    All-put _ p _ _ empty_book-IsBook (new_books-AreBooks F product_ids)

module _ {ℓ} {F : Type ℓ} ⦃fl : Float F⦄ ⦃py : Python F⦄ (depth : ℕ) where
  abbrev IsDue : Option (BookSnapshot F) × List (String × Tracked F) → Type 0
  IsDue = IsTurn (IsSnapshot depth) AreBooks

  kraken_set_levels :
      (side : Side) (lvls : List (Json F)) (book : Book F)
      → IsBook book
      → Ensures IsBook (Kraken.set_levels side lvls book)
  unfolding Kraken.set_levels
  kraken_set_levels side [] book h = holds h
  kraken_set_levels side (lvl ∷ lvls) book h =
      Ensures-read _
        λ px. Ensures-read _ λ sz. kraken_set_levels side lvls _ (set_side-IsBook side px sz book h)

  kraken_update :
      (b : Json F) (book : Book F) → IsBook book → Ensures IsBook (Kraken.update_book b book)
  unfolding Kraken.update_book
  kraken_update b book h = Ensures-read _ λ bids.
      Ensures-bind (kraken_set_levels bid_side bids book h)
        λ with_bids k. Ensures-read _ λ asks. kraken_set_levels ask_side asks with_bids k

  kraken_emit_due :
      (session : Session) (i : ℕ) (venue canonical pair : String) (tracked : Tracked F)
      (book : Book F) (books : List (String × Tracked F))
      → IsBook book
      → AreBooks books
      → IsDue (Kraken.emit_due session i venue canonical depth pair tracked book books)
  unfolding Kraken.emit_due
  kraken_emit_due session i venue canonical pair tracked book books h k =
      elim (Bool-cases (is_early session.recv_ns tracked)) [
        | inl e ↦ rw e (tt, All-put _ pair _ books h k)
        | inr e ↦ rw e (
          snapshot_of-IsSnapshot session i venue canonical depth book h,
          All-put _ pair _ books h k,
        )
      ]

  kraken_start :
      (is_snapshot : Bool) (book : Book F)
      → IsBook book
      → IsBook (if is_snapshot then empty_book else book)
  kraken_start true book h = empty_book-IsBook
  kraken_start false book h = h

  kraken_on_pair :
      (session : Session) (is_snapshot : Bool) (i : ℕ) (books : List (String × Tracked F))
      (b : Json F) (pair : String) (known : Option String)
      → AreBooks books
      → Ensures IsDue (Kraken.on_pair session depth is_snapshot i books b pair known)
  unfolding Kraken.on_pair
  kraken_on_pair session is_snapshot i books b pair none h = holds (tt, h)
  kraken_on_pair session is_snapshot i books b pair (some canonical) h =
      Ensures-bind
        (kraken_update b _ (
          kraken_start is_snapshot (tracked_or_new (get pair books)).book
            (tracked_or_new-IsBook (get pair books) λ tracked e. All-get _ pair tracked books e h)))
        λ book k. holds (
          kraken_emit_due session i "kraken" canonical pair (tracked_or_new (get pair books)) book
            books k h)

  kraken_on_book :
      (session : Session) (is_snapshot : Bool) (i : ℕ) (books : List (String × Tracked F))
      (b : Json F)
      → AreBooks books
      → Ensures IsDue (Kraken.on_book session depth is_snapshot i books b)
  unfolding Kraken.on_book
  kraken_on_book session is_snapshot i books b h = Ensures-read _ λ symbol.
      Ensures-read _
        λ pair. kraken_on_pair session is_snapshot i books b pair (session.canon pair) h

  kraken_typed :
      (session : Session) (books : List (String × Tracked F)) (msg : Json F) (r : Result Bool)
      → AreBooks books
      → Yields (IsSnapshot depth) AreBooks (Kraken.on_typed session depth books msg r)
  kraken_typed session books msg (raise e) h = (tt, raises)
  kraken_typed session books msg (ok is_snapshot) h =
      on_rows_with-Yields (IsSnapshot depth) AreBooks _ (Kraken.on_book session depth is_snapshot)
        (kraken_on_book session is_snapshot) books h

  kraken_message :
      (session : Session) (books : List (String × Tracked F)) (msg : Json F)
      → AreBooks books
      → Yields (IsSnapshot depth) AreBooks (Kraken.on_message depth session books msg)
  unfolding Kraken.on_message
  kraken_message session books msg h = kraken_typed session books msg _ h

  coinbase_set_updates :
      (us : List (Json F)) (book : Book F)
      → IsBook book
      → Ensures IsBook (Coinbase.set_updates us book)
  unfolding Coinbase.set_updates
  coinbase_set_updates [] book h = holds h
  coinbase_set_updates (u ∷ us) book h = Ensures-read _ λ named. Ensures-read _ λ px.
      Ensures-read _
        λ sz. Ensures-read _ λ side. coinbase_set_updates us _ (set_side-IsBook side px sz book h)

  coinbase_snapshot_if_known :
      (session : Session) (i : ℕ) (book : Book F) (known : Option String)
      → IsBook book
      → IsNoneOr (IsSnapshot depth) (Coinbase.snapshot_if_known session i depth book known)
  coinbase_snapshot_if_known session i book none h = tt
  coinbase_snapshot_if_known session i book (some canonical) h =
      snapshot_of-IsSnapshot session i "coinbase" canonical depth book h

  coinbase_emit_due :
      (session : Session) (i : ℕ) (pid : String) (tracked : Tracked F) (book : Book F)
      (books : List (String × Tracked F))
      → IsBook book
      → AreBooks books
      → IsDue (Coinbase.emit_due session i depth pid tracked book books)
  unfolding Coinbase.emit_due
  coinbase_emit_due session i pid tracked book books h k =
      elim (Bool-cases (is_early session.recv_ns tracked)) [
        | inl e ↦ rw e (tt, All-put _ pid _ books h k)
        | inr e ↦ rw e (
          coinbase_snapshot_if_known session i book (session.canon pid) h,
          All-put _ pid _ books h k,
        )
      ]

  coinbase_on_product :
      (session : Session) (i : ℕ) (books : List (String × Tracked F)) (ev : Json F) (pid : String)
      (o : Option (Tracked F))
      → ((tracked : Tracked F) → o ≡ some tracked → IsBook tracked.book)
      → AreBooks books
      → Ensures IsDue (Coinbase.on_product session depth i books ev pid o)
  coinbase_on_product session i books ev pid none h k = holds (tt, k)
  coinbase_on_product session i books ev pid (some tracked) h k = Ensures-read _ λ updates.
      Ensures-bind (coinbase_set_updates updates tracked.book (h tracked refl))
        λ book b. holds (coinbase_emit_due session i pid tracked book books b k)

  coinbase_on_key :
      (session : Session) (i : ℕ) (books : List (String × Tracked F)) (ev : Json F)
      (key : Option String)
      → AreBooks books
      → Ensures IsDue (Coinbase.on_key session depth i books ev key)
  coinbase_on_key session i books ev none h = holds (tt, h)
  coinbase_on_key session i books ev (some pid) h =
      coinbase_on_product session i books ev pid (get pid books)
        (λ tracked e. All-get _ pid tracked books e h) h

  coinbase_on_event :
      (session : Session) (i : ℕ) (books : List (String × Tracked F)) (ev : Json F)
      → AreBooks books
      → Ensures IsDue (Coinbase.on_event session depth i books ev)
  unfolding Coinbase.on_event
  coinbase_on_event session i books ev h =
      Ensures-read _ λ product. Ensures-read _ λ key. coinbase_on_key session i books ev key h

  coinbase_message :
      (session : Session) (books : List (String × Tracked F)) (msg : Json F)
      → AreBooks books
      → Yields (IsSnapshot depth) AreBooks (Coinbase.on_message depth session books msg)
  unfolding Coinbase.on_message
  coinbase_message session books msg h =
      on_rows_with-Yields (IsSnapshot depth) AreBooks _ (Coinbase.on_event session depth)
        (coinbase_on_event session) books h

  module _ (sessions : ℕ → Session) (frames : List (Option (Json F))) where
    -- Whatever frames Kraken sends, in every snapshot that the stream of books yields the bids strictly
    -- descend and the asks strictly ascend by price, no size is zero, and neither side has more than
    -- `depth` levels; and the books that are left hold no price twice and no size of zero.
    pub kraken-IsSnapshot :
        Yields (IsSnapshot depth) AreBooks (Kraken.stream_book depth sessions frames)
    unfolding Kraken.stream_book
    kraken-IsSnapshot =
        run_frames-Yields (IsSnapshot depth) AreBooks (λ n. Kraken.on_message depth (sessions n))
          (λ n. kraken_message (sessions n)) 0 [] frames tt

    -- Whatever frames Coinbase sends and for every list of products, in every snapshot that the stream of
    -- books yields the bids strictly descend and the asks strictly ascend by price, no size is zero, and
    -- neither side has more than `depth` levels; and the books that are left hold no price twice and no
    -- size of zero.
    pub coinbase-IsSnapshot :
        (product_ids : List String)
        → Yields
            (IsSnapshot depth)
            AreBooks
            (Coinbase.stream_book product_ids depth sessions frames)
    unfolding Coinbase.stream_book
    coinbase-IsSnapshot product_ids =
        run_frames-Yields (IsSnapshot depth) AreBooks (λ n. Coinbase.on_message depth (sessions n))
          (λ n. coinbase_message (sessions n)) 0 (Coinbase.new_books product_ids) frames
          (new_books-AreBooks F product_ids)
