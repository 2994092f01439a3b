-- ===== src/Consolidated/Median.antt =====
-- `statistics.median` of the standard library, on a list that is not empty: the middle of the sorted
-- data, or the mean of the two middle ones. (The program never calls it on an empty list.)
use crypto_data_aggregator.Prelude.{
  ℕ, ◌-◌, ◌/◌, ◌%◌, List, [], ◌∷◌, ◌==◌, if◌then◌else◌, length, get_or, All, In, inl, inr,
  Bool-cases,
}
use crypto_data_aggregator.Prelude.Order.{◌≼◌, minimum, In-minimum, minimum-le}
use crypto_data_aggregator.Prelude.Sorting.{sorted, All-sorted}
use crypto_data_aggregator.Float.{Float, float_order, IsFloat, mean}

module _ {ℓ} {F : Type ℓ} ⦃fl : Float F⦄ where
  -- `data[n // 2]`, or `(data[n // 2 - 1] + data[n // 2]) / 2`, where `d` is never read.
  unfoldable pub middle : List F → F → F
  middle data' d =
      let n = length data' in
      if n % 2 == 1
      then get_or data' (n / 2) d
      else mean (get_or data' (n / 2 - 1) d) (get_or data' (n / 2) d)

  -- `statistics.median([x, *xs])`
  unfoldable pub median : F → List F → F
  unfolding middle
  median x xs = middle (sorted (x ∷ xs)) x

  All-get_or : (P : F → Type 0) (xs : List F) (i : ℕ) (d : F) → All P xs → P d → P (get_or xs i d)
  All-get_or P [] i d h p = p
  All-get_or P (x ∷ xs) ℕ.zero d h p = h.0
  All-get_or P (x ∷ xs) (ℕ.suc i) d h p = All-get_or P xs i d h.1 p

  module _ (laws : IsFloat F) where
    -- The median lies between any bounds of the data.
    pub median_ge : (m x : F) (xs : List F) → All (λ y. m ≼ y) (x ∷ xs) → m ≼ median x xs
    unfolding median
    median_ge m x xs h =
        let s = All-sorted (λ y. m ≼ y) (x ∷ xs) h in
        let n = length (sorted (x ∷ xs)) in
        let at = λ (i : ℕ). All-get_or (λ y. m ≼ y) (sorted (x ∷ xs)) i x s h.0 in
        elim (Bool-cases (n % 2 == 1)) [
          | inl e ↦ rw e (at (n / 2))
          | inr e ↦ rw e (laws.mean_ge m _ _ (at (n / 2 - 1)) (at (n / 2)))
        ]

    pub median_le : (m x : F) (xs : List F) → All (λ y. y ≼ m) (x ∷ xs) → median x xs ≼ m
    unfolding median
    median_le m x xs h =
        let s = All-sorted (λ y. y ≼ m) (x ∷ xs) h in
        let n = length (sorted (x ∷ xs)) in
        let at = λ (i : ℕ). All-get_or (λ y. y ≼ m) (sorted (x ∷ xs)) i x s h.0 in
        elim (Bool-cases (n % 2 == 1)) [
          | inl e ↦ rw e (at (n / 2))
          | inr e ↦ rw e (laws.mean_le m _ _ (at (n / 2 - 1)) (at (n / 2)))
        ]

    -- Some datum is no larger than the median.
    pub In-le_median : (x : F) (xs : List F) → (y : F) × In y (x ∷ xs) × (y ≼ median x xs)
    In-le_median x xs =
        (minimum x xs, In-minimum x xs, median_ge (minimum x xs) x xs (minimum-le x xs))
