-- ===== src/Consolidated/Filter/Survivors.antt =====
-- What `_robust_filter` keeps.
use crypto_data_aggregator.Prelude.{
  ℕ, ◌<◌, ◌≡◌, refl, subst, true, inl, inr, List, [], ◌∷◌, map, arith, ltb, ◌∙◌, All,
  All-select_keep, In, here, In-select, In-of_map, Bool-cases, ap,
}
use crypto_data_aggregator.Prelude.Order.{◌≼◌, ≼_of_not-≼, le-maximum}
use crypto_data_aggregator.Float.{Float, float_order, IsFloat, nought, one}
use crypto_data_aggregator.Trade.{Trade}
use crypto_data_aggregator.Consolidated.Median.{median, In-le_median}
use crypto_data_aggregator.Consolidated.Filter.{
  prices, venues_present, abs_dev, mad_of, threshold, is_near, robust_filter,
}

module _ {ℓ} {F : Type ℓ} ⦃fl : Float F⦄ where
  -- What holds of every trade of a second holds of every survivor.
  pub All-robust_filter {κ} :
      (P : Trade F → Type κ) (mad_k : F) (min_venues : ℕ) (trades : List (Trade F))
      → All P trades
      → All P (robust_filter mad_k min_venues trades).0
  unfolding robust_filter
  All-robust_filter P mad_k min_venues [] h = tt
  All-robust_filter P mad_k min_venues (t ∷ ts) h =
      let med = median t.price (prices ts) in
      let near = is_near med (threshold mad_k med (mad_of med t ts)) in
      elim (Bool-cases (ltb (venues_present (t ∷ ts)) min_venues)) [
        | inl e ↦ rw e h
        | inr e ↦ rw e (All-select_keep P near (t ∷ ts) h)
      ]

  -- A second with fewer venues than the minimum is kept whole.
  pub robust_filter_thin :
      (mad_k : F) (min_venues : ℕ) (trades : List (Trade F))
      → venues_present trades < min_venues
      → (robust_filter mad_k min_venues trades).0 ≡ trades
  unfolding robust_filter
  robust_filter_thin mad_k min_venues [] h = refl
  robust_filter_thin mad_k min_venues (t ∷ ts) h =
      let thin : ltb (venues_present (t ∷ ts)) min_venues ≡ true = ground arith in rw thin

  module _ (laws : IsFloat F) (mad_k : F) (k-ge_one : one ≼ mad_k) where
    -- The threshold is never below the MAD itself.
    mad-le_threshold : (med mad : F) → mad ≼ threshold mad_k med mad
    unfolding threshold
    mad-le_threshold med mad = elim (Bool-cases (float_order.le mad nought)) [
      | inl e ↦
          let tiny = fl.of_decimal 1 12 in
          rw e (
            float_order.le_trans mad nought _ e (
              float_order.le_trans nought tiny _ (laws.decimal_nonneg 1 12)
                (le-maximum (fl.mul med (fl.of_decimal 1 3)) (tiny ∷ [])).1.0))
      | inr e ↦
          let factor = fl.of_decimal 14826 4 in
          let pos : nought ≼ mad = ≼_of_not-≼ mad nought e in
          let up = laws.le-mul_right mad factor laws.one-le_sigma pos in
          rw e (
            float_order.le_trans mad (fl.mul mad factor) _ up (
              laws.le-mul_left mad_k (fl.mul mad factor) k-ge_one
                (float_order.le_trans nought mad _ pos up)))
    ]

    -- Some trade deviates from the median by no more than the MAD.
    In-near_mad :
        (med : F) (t : Trade F) (ts : List (Trade F))
        → (u : Trade F) × In u (t ∷ ts) × (abs_dev med u.price ≼ mad_of med t ts)
    unfolding mad_of
    In-near_mad med t ts =
        let (dev, m, near) =
          In-le_median laws (abs_dev med t.price) (map (abs_dev med) (prices ts)) in
        let (p, n, e) = In-of_map (abs_dev med) (prices (t ∷ ts)) m in
        let (u, o, f) = In-of_map (λ x. x.price) (t ∷ ts) n in
        (u, o, subst (λ d. d ≼ mad_of med t ts) (e ∙ ap (abs_dev med) f) near)

    -- With `mad_k >= 1` the filter never empties a second: some trade always survives.
    pub robust_filter-survivor :
        (min_venues : ℕ) (t : Trade F) (ts : List (Trade F))
        → (u : Trade F) × In u (robust_filter mad_k min_venues (t ∷ ts)).0
    unfolding robust_filter is_near
    robust_filter-survivor min_venues t ts =
        elim (Bool-cases (ltb (venues_present (t ∷ ts)) min_venues)) [
          | inl e ↦ (t, rw e (here refl))
          | inr e ↦
              let med = median t.price (prices ts) in
              let mad = mad_of med t ts in
              let (u, m, near) = In-near_mad med t ts in
              let kept =
                float_order.le_trans (abs_dev med u.price) mad _ near (mad-le_threshold med mad) in
              (u, rw e (In-select (is_near med (threshold mad_k med mad)) (t ∷ ts) m kept))
        ]
