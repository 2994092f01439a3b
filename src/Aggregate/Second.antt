-- ===== src/Aggregate/Second.antt =====
-- `aggregate_second`: the legacy combiner of per-venue 1-second bars of one second.
pub mod Outcome
use Prim.Native.String.{String}
use crypto_data_aggregator.Prelude.{
  ℕ, ◌≡◌, Bool, not, ◌&&◌, Option, none, some, List, [], ◌∷◌, map, leb, length, select, total_of,
  if◌then◌else◌,
}
use crypto_data_aggregator.Prelude.Order.{Order, text_order, lt, maximum, minimum}
use crypto_data_aggregator.Float.{Float, float_order, nought}
use crypto_data_aggregator.Trade.{Bar}
use crypto_data_aggregator.Consolidated.Median.{median}
use crypto_data_aggregator.Consolidated.Bars.{contains, mask_loop, index_or}

module _ {ℓ} {F : Type ℓ} ⦃fl : Float F⦄ where
  -- `b.get("volume", 0.0) > 0 and b.get("venue") not in excluded`
  unfoldable pub is_used : List String → Bar F → Bool
  unfolding contains
  is_used excluded b = lt nought b.volume && not (contains b.venue excluded)

  unfoldable pub close_dev : F → F → F
  close_dev med c = fl.magnitude (fl.sub c med)

  abbrev pub closes : List (Bar F) → List F
  closes = map (λ b. b.close)

  unfoldable pub close_threshold : F → F → F → F
  close_threshold outlier_sigma med mad =
      if lt nought mad
      then fl.mul (fl.mul outlier_sigma mad) (fl.of_decimal 14826 4)
      else maximum (fl.mul med (fl.of_decimal 1 3)) (fl.of_decimal 1 12 ∷ [])

  -- The survivors among the bars `b ∷ bs`: all of them, unless there are three or more.
  unfoldable pub keep_closes : F → Bar F → List (Bar F) → List (Bar F)
  unfolding close_dev close_threshold
  keep_closes outlier_sigma b bs =
      let med = median b.close (closes bs) in
      let mad = median (close_dev med b.close) (map (close_dev med) (closes bs)) in
      let thresh = close_threshold outlier_sigma med mad in
      if leb 3 (length (b ∷ bs))
      then select (λ x. float_order.le (close_dev med x.close) thresh) (b ∷ bs)
      else b ∷ bs

  abbrev pub volume_sum : List (Bar F) → F
  volume_sum bars = fl.sum (map (λ b. b.volume) bars)

  -- `sum(b[field] * b["volume"] for b in kept) / total_volume`
  abbrev pub weighted : (Bar F → F) → List (Bar F) → F
  weighted field bars =
      fl.div (fl.sum (map (λ b. fl.mul (field b) b.volume) bars)) (volume_sum bars)

  -- The combined bar of the survivors, the first of which is `sample`.
  unfoldable pub combine : List (String × ℕ) → ℕ → Bar F → List (Bar F) → Bar F
  unfolding mask_loop
  combine index now_ns sample bs = record {
    ts_ns = sample.ts_ns;
    symbol = sample.symbol;
    venue = "agg";
    open_px = weighted (λ b. b.open_px) (sample ∷ bs);
    high = maximum sample.high (map (λ b. b.high) bs);
    low = minimum sample.low (map (λ b. b.low) bs);
    close = weighted (λ b. b.close) (sample ∷ bs);
    volume = volume_sum (sample ∷ bs);
    vwap = weighted (λ b. b.vwap) (sample ∷ bs);
    trades = total_of (map (λ b. b.trades) (sample ∷ bs));
    sources_mask = mask_loop index (map (λ b. b.venue) (sample ∷ bs)) 0;
    ingested_at_ns = now_ns;
  }

  -- From the survivors on.
  unfoldable pub combine_kept : List (String × ℕ) → ℕ → List (Bar F) → Option (Bar F)
  unfolding combine
  combine_kept index now_ns [] = none
  combine_kept index now_ns (b ∷ bs) =
      if float_order.le (volume_sum (b ∷ bs)) nought then none else some (combine index now_ns b bs)

  -- From the usable bars on.
  unfoldable pub combine_used : F → Option (List (String × ℕ)) → ℕ → List (Bar F) → Option (Bar F)
  unfolding combine_kept keep_closes
  combine_used outlier_sigma venues_index now_ns [] = none
  combine_used outlier_sigma venues_index now_ns (b ∷ bs) =
      combine_kept (index_or venues_index (map (λ x. x.venue) (b ∷ bs))) now_ns
        (keep_closes outlier_sigma b bs)

  unfoldable pub aggregate_second :
      F → Option (List (String × ℕ)) → List String → ℕ → List (Bar F) → Option (Bar F)
  unfolding is_used combine_used
  aggregate_second outlier_sigma venues_index excluded_venues now_ns per_venue_bars =
      combine_used outlier_sigma venues_index now_ns
        (select (is_used excluded_venues) per_venue_bars)
