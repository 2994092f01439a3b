-- ===== src/Consolidated/Filter.antt =====
-- `_robust_filter`: the per-second outlier filter.
pub mod Survivors
use crypto_data_aggregator.Prelude.{
  ℕ, Bool, Option, none, some, List, [], ◌∷◌, map, ltb, if◌then◌else◌, length, select,
}
use crypto_data_aggregator.Prelude.Order.{text_order, maximum}
use crypto_data_aggregator.Prelude.Sorting.{sorted_set}
use crypto_data_aggregator.Float.{Float, float_order, nought}
use crypto_data_aggregator.Trade.{Trade}
use crypto_data_aggregator.Consolidated.Median.{median}

module _ {ℓ} {F : Type ℓ} ⦃fl : Float F⦄ where
  abbrev pub prices : List (Trade F) → List F
  prices = map (λ t. t.price)

  -- `len({t.get("venue") for t in trades})`
  unfoldable pub venues_present : List (Trade F) → ℕ
  venues_present trades = length (sorted_set (map (λ t. t.venue) trades))

  -- `abs(p - med)`
  unfoldable pub abs_dev : F → F → F
  abs_dev med p = fl.magnitude (fl.sub p med)

  -- `statistics.median([abs(p - med) for p in prices])`
  unfoldable pub mad_of : F → Trade F → List (Trade F) → F
  mad_of med t ts = median (abs_dev med t.price) (map (abs_dev med) (prices ts))

  -- `max(med * 1e-3, 1e-12)` where the spread is degenerate, and else `mad_k * (mad * 1.4826)`.
  unfoldable pub threshold : F → F → F → F
  threshold mad_k med mad =
      if float_order.le mad nought
      then maximum (fl.mul med (fl.of_decimal 1 3)) (fl.of_decimal 1 12 ∷ [])
      else fl.mul mad_k (fl.mul mad (fl.of_decimal 14826 4))

  -- `abs(t["price"] - med) <= thresh`
  unfoldable pub is_near : F → F → Trade F → Bool
  is_near med thresh t = float_order.le (abs_dev med t.price) thresh

  -- The surviving trades and the median price; `none` is `math.nan`.
  unfoldable pub robust_filter : F → ℕ → List (Trade F) → List (Trade F) × Option F
  unfolding venues_present abs_dev mad_of threshold is_near
  robust_filter mad_k min_venues [] = ([], none)
  robust_filter mad_k min_venues (t ∷ ts) =
      let med = median t.price (prices ts) in
      if ltb (venues_present (t ∷ ts)) min_venues
      then (t ∷ ts, some med)
      else (select (is_near med (threshold mad_k med (mad_of med t ts))) (t ∷ ts), some med)
