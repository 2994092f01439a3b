-- ===== src/Quality/Prints.antt =====
-- `check_trade_invariants` of cryptodata/quality/checks.py, over a list of trades with the columns that
-- the report loads. The sort by time before the median is left out, since a median sorts by itself.
pub mod Identifiers
pub mod Streamed
use Prim.Native.String.{String}
use crypto_data_aggregator.Prelude.{
  ℕ, ◌-◌, Bool, not, ◌||◌, Option, none, some, List, [], ◌∷◌, ◌++◌, map, ltb, leb, ◌==◌, length,
  select, if◌then◌else◌,
}
use crypto_data_aggregator.Prelude.Int.{ℤ, pos, negsuc, ◌-ℤ◌, int_order}
use crypto_data_aggregator.Prelude.Order.{text_order, lt, gt, eq}
use crypto_data_aggregator.Prelude.Sorting.{sorted_set}
use crypto_data_aggregator.Float.{Float, float_order, nought}
use crypto_data_aggregator.Numerics.{Numerics}
use crypto_data_aggregator.Rows.{Trade}
use crypto_data_aggregator.Consolidated.Median.{median}
use crypto_data_aggregator.Quality.{Issue, minor, major, critical, issue_if, neighbours}

-- `side.isin([-1, 0, 1])`
unfoldable pub is_side : ℤ → Bool
is_side side = eq side (negsuc 0) || eq side (pos 0) || eq side (pos 1)

module _ {ℓ} {F : Type ℓ} where
  -- `ids.dropna()`, and `ids[ids != ""]` of those.
  unfoldable pub identifiers : List (Trade F) → List String
  identifiers [] = []
  identifiers (t ∷ trades) = elim t.trade_id [
    | none ↦ identifiers trades
    | some id ↦ if eq id "" then identifiers trades else id ∷ identifiers trades
  ]

-- `len(ids) - ids.nunique()`
unfoldable pub repeats : List String → ℕ
repeats ids = length ids - length (sorted_set ids)

module _ {ℓ} {F : Type ℓ} ⦃fl : Float F⦄ where
  abbrev pub trades_with : (Trade F → Bool) → List (Trade F) → ℕ
  trades_with p trades = length (select p trades)

  -- `np.abs(px - med) / med > 0.5`
  unfoldable pub is_wild : F → F → Bool
  is_wild med px = gt (fl.div (fl.magnitude (fl.sub px med)) med) (fl.of_decimal 5 1)

  unfoldable pub wild_prices : List F → ℕ
  unfolding is_wild
  wild_prices [] = 0
  wild_prices (x ∷ xs) =
      let med = median x xs in
      if ltb (length (x ∷ xs)) 20
      then 0
      else if gt med nought
      then length (select (is_wild med) (x ∷ xs))
      else 0

  module _ ⦃nm : Numerics F⦄ where
    unfoldable pub lag_ms : Trade F → F
    lag_ms t = fl.div (nm.of_int (t.recv_ns -ℤ t.ts_ns)) (fl.of_nat 1_000_000)

    unfoldable pub lag_issue : List F → List (Issue F)
    lag_issue lags =
        let n_stale = length (select (λ lag. gt lag (fl.of_nat 5000)) lags) in
        issue_if n_stale "trade.high_receive_lag" minor (
          nm.joined (
            nm.digits n_stale
            ∷ " trades with recv lag > 5s (p99 lag "
            ∷ nm.places 0 (nm.percentile_99 lags)
            ∷ " ms)"
            ∷ []))

    -- A list without trades has no issue of any kind, as with the early return.
    unfoldable pub check_trade_invariants : List (Trade F) → List (Issue F)
    unfolding neighbours is_side identifiers repeats wild_prices lag_ms lag_issue
    check_trade_invariants trades =
        issue_if (trades_with (λ t. float_order.le t.price nought) trades) "trade.nonpositive_price"
          critical "trade price <= 0"
        ++ issue_if (trades_with (λ t. float_order.le t.size nought) trades)
            "trade.nonpositive_size" major "trade size <= 0"
        ++ issue_if (trades_with (λ t. not (is_side t.side)) trades) "trade.bad_side" minor
            "side not in {-1, 0, +1}"
        ++ issue_if (neighbours (λ a b. lt b a) (map (λ t. t.ts_ns) trades))
            "trade.timestamps_out_of_order" minor
            "trades within a (symbol, venue) slice not in ts order on disk"
        ++ issue_if (repeats (identifiers trades)) "trade.duplicate_trade_id" major
            "repeated venue trade_id within the slice (likely double-ingest)"
        ++ issue_if (wild_prices (map (λ t. t.price) trades)) "trade.extreme_price" major
            ">50% deviation from the slice median price"
        ++ lag_issue (map lag_ms trades)
