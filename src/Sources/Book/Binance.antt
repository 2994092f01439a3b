-- ===== src/Sources/Book/Binance.antt =====
-- `stream_book` of cryptodata/sources/binance.py, which passes on the books that the venue sends.
use Prim.Native.String.{String}
use crypto_data_aggregator.Prelude.{ℕ, leb, Option, none, some, List, [], ◌∷◌, if◌then◌else◌}
use crypto_data_aggregator.Prelude.Int.{pos}
use crypto_data_aggregator.Prelude.Order.{eq, text_order}
use crypto_data_aggregator.Float.{Float}
use crypto_data_aggregator.Python.{
  Result, ok, raise, ◌>>=◌, Json, text, Python, get_or, item, has, iterate, to_float, value_error,
  text_of,
}
use crypto_data_aggregator.Rows.{BookSnapshot}
use crypto_data_aggregator.Sources.{Session, Emission, get_or_else, run_frames, on_rows}

-- `next((x for x in [5, 10, 20] if x >= depth), 20)`
unfoldable pub valid_depth : ℕ → ℕ
valid_depth depth = if leb depth 5 then 5 else if leb depth 10 then 10 else 20

-- `for p, q in ...`
abbrev pub two {ℓ} : {A : Type ℓ} → List A → Result (A × A)
two (a ∷ b ∷ []) = ok (a, b)
two l = raise value_error

module _ {ℓ} {F : Type ℓ} ⦃fl : Float F⦄ ⦃py : Python F⦄ where
  -- `[{"px": float(p), "sz": float(q)} for p, q in levels]`
  unfoldable pub levels_of : List (Json F) → Result (List (F × F))
  levels_of [] = ok []
  levels_of (l ∷ ls) = do
    parts ← iterate l
    entry ← two parts
    px ← to_float entry.0
    sz ← to_float entry.1
    rest ← levels_of ls
    ok ((px, sz) ∷ rest)

  -- `to_canonical(native_sym, self.name) if native_sym else None`
  unfoldable pub stream_canonical : Session → Json F → Result (Option String)
  stream_canonical session stream = do
    at_sign ← has "@" stream
    if at_sign
        then (do
          s ← text_of stream
          let native = py.upper (py.before "@" s)
          ok (if eq native "" then none else session.canon native))
        else ok none

  abbrev pub snapshot_rows : Json F → Option String → List (String × Json F)
  snapshot_rows data_row none = []
  snapshot_rows data_row (some canonical) = (canonical, data_row) ∷ []

  -- The guards of the loop: the dict of a message of a known stream, with its canonical name.
  unfoldable pub book_rows : Session → Json F → Result (List (String × Json F))
  unfolding stream_canonical
  book_rows session msg = do
    d ← get_or_else "data" msg msg
    c ← has "bids" d
    if c
        then (do
          stream ← get_or "stream" (text "") msg
          known ← stream_canonical session stream
          ok (snapshot_rows d known))
        else ok []

  unfoldable pub snapshot_of : ℕ → Session → ℕ → String × Json F → Result (Option (BookSnapshot F))
  unfolding valid_depth levels_of
  snapshot_of depth session i (canonical, d) = do
    bids ← item "bids" d >>= iterate >>= levels_of
    asks ← item "asks" d >>= iterate >>= levels_of
    ok (
        some (record {
          ts_ns = pos session.recv_ns;
          recv_ns = pos session.recv_ns;
          symbol = canonical;
          venue = "binance";
          depth = valid_depth depth;
          bids = bids;
          asks = asks;
          ingested_at_ns = pos (session.made_ns i);
        }))

  unfoldable pub stream_book :
      ℕ → (ℕ → Session) → List (Option (Json F)) → Emission (BookSnapshot F) (Unit {0})
  unfolding run_frames book_rows snapshot_of
  stream_book depth sessions frames =
      run_frames (λ n s msg. on_rows (book_rows (sessions n) msg) (snapshot_of depth (sessions n)))
        0 tt frames
