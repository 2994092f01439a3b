-- ===== src/Sources/Book.antt =====
-- The order books that the adapters of Kraken (cryptodata/sources/kraken.py) and Coinbase
-- (cryptodata/sources/coinbase.py) rebuild from updates, and their snapshots.
pub mod Invariant
pub mod Kraken
pub mod Coinbase
pub mod Binance
pub mod Turns
pub mod Snapshots
use Prim.Native.String.{String}
use crypto_data_aggregator.Prelude.{
  ℕ, ◌+◌, Bool, Option, none, some, List, [], ◌∷◌, if◌then◌else◌, ltb,
}
use crypto_data_aggregator.Prelude.Int.{pos}
use crypto_data_aggregator.Prelude.Order.{Order, eq, pair_order, descending}
use crypto_data_aggregator.Prelude.Dict.{put, remove}
use crypto_data_aggregator.Prelude.Sorting.{sorted}
use crypto_data_aggregator.Prelude.Prefixes.{take}
use crypto_data_aggregator.Float.{Float, float_order, nought}
use crypto_data_aggregator.Python.{Result, ok, raise}
use crypto_data_aggregator.Rows.{BookSnapshot}
use crypto_data_aggregator.Sources.{Session, Emission, add_emitted}

-- The sizes by price, of both sides.
pub record Book {ℓ} (F : Type ℓ) : Type ℓ where
  pub bid : List (F × F)
  pub ask : List (F × F)

pub data Side : Type 0 where
  bid_side : Side
  ask_side : Side

module _ {ℓ} {F : Type ℓ} where
  abbrev pub empty_book : Book F
  empty_book = record { bid = []; ask = [] }

module _ {ℓ} {F : Type ℓ} ⦃fl : Float F⦄ where
  -- One level of an update: a size of 0.0 takes the price out.
  unfoldable pub set_level : F → F → List (F × F) → List (F × F)
  unfolding put remove
  set_level px sz levels = if eq sz nought then remove px levels else put px sz levels

  unfoldable pub set_side : Side → F → F → Book F → Book F
  unfolding set_level
  set_side bid_side px sz book = record { bid = set_level px sz book.bid; ask = book.ask }
  set_side ask_side px sz book = record { bid = book.bid; ask = set_level px sz book.ask }

  -- `sorted(bids.items(), reverse=True)[:depth]` and `sorted(asks.items())[:depth]`
  unfoldable pub bids_sorted : ℕ → List (F × F) → List (F × F)
  unfolding sorted
  bids_sorted depth bid = take depth (sorted ⦃o = descending pair_order⦄ bid)

  unfoldable pub asks_sorted : ℕ → List (F × F) → List (F × F)
  unfolding sorted
  asks_sorted depth ask = take depth (sorted ask)

  -- `BookSnapshot(...)` of a book, made as the `i`-th row.
  unfoldable pub snapshot_of : Session → ℕ → String → String → ℕ → Book F → BookSnapshot F
  unfolding bids_sorted asks_sorted
  snapshot_of session i venue canonical depth book = record {
    ts_ns = pos session.recv_ns;
    recv_ns = pos session.recv_ns;
    symbol = canonical;
    venue = venue;
    depth = depth;
    bids = bids_sorted depth book.bid;
    asks = asks_sorted depth book.ask;
    ingested_at_ns = pos (session.made_ns i);
  }

-- `EMIT_INTERVAL_NS`
abbrev pub emit_interval_ns : ℕ
emit_interval_ns = 5_000_000_000

-- An entry of `books` with that of `last_emit_ns`.
pub record Tracked {ℓ} (F : Type ℓ) : Type ℓ where
  pub book : Book F
  pub last_emit_ns : ℕ

module _ {ℓ} {F : Type ℓ} where
  abbrev pub untracked : Tracked F
  untracked = record { book = empty_book; last_emit_ns = 0 }

  -- `recv_ns - last_emit_ns < EMIT_INTERVAL_NS`
  unfoldable pub is_early : ℕ → Tracked F → Bool
  is_early recv_ns tracked = ltb recv_ns (tracked.last_emit_ns + emit_interval_ns)

  abbrev pub tracked_or_new : Option (Tracked F) → Tracked F
  tracked_or_new none = untracked
  tracked_or_new (some tracked) = tracked

abbrev pub emit_state {ℓ κ} :
    {B : Type ℓ} {S : Type κ} → Result (Option B × S) → (S → Emission B S) → Emission B S
emit_state (raise e) k = ([], raise e)
emit_state (ok (o, t)) k = add_emitted o (k t)

module _ {ℓ κ μ} {A : Type ℓ} {B : Type κ} {S : Type μ} where
  -- `for row in rows`, with the state that each row leaves.
  unfoldable pub for_rows_with : (ℕ → S → A → Result (Option B × S)) → ℕ → S → List A → Emission B S
  for_rows_with f i s [] = ([], ok s)
  for_rows_with f i s (r ∷ rows) = emit_state (f i s r) λ t. for_rows_with f (i + 1) t rows

  abbrev pub on_rows_with : Result (List A) → (ℕ → S → A → Result (Option B × S)) → S → Emission B S
  on_rows_with (raise e) f s = ([], raise e)
  on_rows_with (ok rows) f s = for_rows_with f 0 s rows
