-- ===== src/Trade.antt =====
-- The rows that the aggregation reads and writes: trade dicts (cryptodata/sources/base.py, `Trade.to_row`)
-- and 1-second bar dicts (cryptodata/storage/schemas.py, `BARS_1S_SCHEMA`). Times are ns since the epoch,
-- so they are natural numbers; prices and sizes are of any type of floats.
use Prim.Native.String.{String}
use crypto_data_aggregator.Prelude.{ℕ, ◌*◌, ◌/◌, ◌≤◌, ◌≡◌, arith, Option, none, some}

-- The keys of a trade row that the aggregation looks at. `recv_ns` may be missing, and `t.get("recv_ns",
-- t["ts_ns"])` then reads `ts_ns`; the others are always present, as `merge_trades` demands.
pub record Trade {ℓ} (F : Type ℓ) : Type ℓ where
  pub ts_ns : ℕ
  pub recv_ns : Option ℕ
  pub venue : String
  pub price : F
  pub size : F

abbrev pub get_or_else : Option ℕ → ℕ → ℕ
get_or_else none d = d
get_or_else (some n) d = n

module _ {ℓ} {F : Type ℓ} where
  -- `t.get("recv_ns", t["ts_ns"])`
  abbrev pub received : Trade F → ℕ
  received t = get_or_else t.recv_ns t.ts_ns

-- A row of `bars_1s`.
pub record Bar {ℓ} (F : Type ℓ) : Type ℓ where
  pub ts_ns : ℕ
  pub symbol : String
  pub venue : String
  pub open_px : F
  pub high : F
  pub low : F
  pub close : F
  pub volume : F
  pub vwap : F
  pub trades : ℕ
  pub sources_mask : ℕ
  pub ingested_at_ns : ℕ

-- `(ts_ns // 1_000_000_000) * 1_000_000_000`: the left edge of the second.
unfoldable pub second_of : ℕ → ℕ
second_of ts = ts / 1_000_000_000 * 1_000_000_000

pub second_of_idem : (ts : ℕ) → second_of (second_of ts) ≡ second_of ts
unfolding second_of
second_of_idem ts = omega arith

pub second_of_mono : (a b : ℕ) → a ≤ b → second_of a ≤ second_of b
unfolding second_of
second_of_mono a b h = omega arith
