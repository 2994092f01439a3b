-- ===== src/Quality/Gaps/Runs.antt =====
-- The longest flat run, as `check_flatline` counts it and as a scan finds it.
use crypto_data_aggregator.Prelude.{
  ℕ, zero, suc, ◌+◌, ◌<◌, ◌≤◌, ◌≡◌, refl, inl, inr, max, List, [], ◌∷◌, arith, ◌==◌, leb→le, leb,
  ltb, length, length-map, map, ◌∙◌, if◌then◌else◌, All, Bool-cases,
}
use native.Mathlib.Decide.{dec_le}
use crypto_data_aggregator.Prelude.Order.{nat_order, eq, gt, ◌≼◌, maximum, le-maximum}
use crypto_data_aggregator.Float.{Float, float_order}
use crypto_data_aggregator.Numerics.{Numerics}
use crypto_data_aggregator.Trade.{Bar}
use crypto_data_aggregator.Quality.Gaps.{
  count, bins, largest_bin, run_ids, run_ids_from, close_column, check_flatline, nonempty_flatline,
}

maximum-le_all : (b x : ℕ) (xs : List ℕ) → x ≤ b → All (λ y. y ≤ b) xs → maximum x xs ≤ b
unfolding maximum
maximum-le_all b x [] h k = h
maximum-le_all b x (y ∷ ys) h k =
    maximum-le_all b (if gt y x then y else x) ys (ground (arith, h, k.0)) k.1

-- Numbers beyond all of a list do not stand in it.
count_beyond : (v : ℕ) (ids : List ℕ) → All (λ n. n < v) ids → count v ids ≡ 0
count_beyond v [] h = refl
count_beyond v (n ∷ ns) h = ground (arith, h.0, count_beyond v ns h.1)

bins-le :
    (m n v : ℕ) (ids : List ℕ) → All (λ k. k ≤ m) (bins n ids) → 0 < v → v ≤ n → count v ids ≤ m
unfolding bins
bins-le m zero v ids h p q = absurd (omega arith)
bins-le m (suc n) v ids h p q = elim (Bool-cases (v == suc n)) [
  | inl e ↦ subst_count (ground (arith, e)) h.0
  | inr e ↦ bins-le m n v ids h.1 p (ground (arith, e, q))
]
  where
    subst_count : v ≡ suc n → count (suc n) ids ≤ m → count v ids ≤ m
    subst_count e k = rw e k

bins-bound : (m n : ℕ) (ids : List ℕ) → ((v : ℕ) → count v ids ≤ m) → All (λ k. k ≤ m) (bins n ids)
unfolding bins
bins-bound m zero ids h = tt
bins-bound m (suc n) ids h = (h (suc n), bins-bound m n ids h)

All-le_of_≼ : (b : ℕ) (xs : List ℕ) → All (λ y. y ≼ b) xs → All (λ y. y ≤ b) xs
All-le_of_≼ b [] h = tt
All-le_of_≼ b (x ∷ xs) h = (leb→le x b h.0, All-le_of_≼ b xs h.1)

All-lt_of_le : (b v : ℕ) (xs : List ℕ) → b < v → All (λ y. y ≤ b) xs → All (λ y. y < v) xs
All-lt_of_le b v [] l h = tt
All-lt_of_le b v (x ∷ xs) l h = (omega arith, All-lt_of_le b v xs l h.1)

-- No number stands in the list more often than the largest bin says.
count-le-largest_bin : (v : ℕ) (ids : List ℕ) → count v ids ≤ largest_bin ids
unfolding largest_bin
count-le-largest_bin zero ids = leb→le _ _ (le-maximum (count 0 ids) (bins (maximum 0 ids) ids)).0
count-le-largest_bin (suc v) ids =
    let top = maximum 0 ids in
    let largest = maximum (count 0 ids) (bins top ids) in
    elim (dec_le (suc v) top) [
      | yes p ↦
          bins-le largest top (suc v) ids
            (All-le_of_≼ largest (bins top ids) (le-maximum (count 0 ids) (bins top ids)).1)
            (omega arith) p
      | no p ↦
          let none_there = count_beyond (suc v) ids (
            All-lt_of_le top (suc v) ids (omega arith)
              (All-le_of_≼ top ids (le-maximum 0 ids).1)) in
          omega (arith, none_there)
    ]

largest_bin-le : (m : ℕ) (ids : List ℕ) → ((v : ℕ) → count v ids ≤ m) → largest_bin ids ≤ m
unfolding largest_bin
largest_bin-le m ids h =
    maximum-le_all m (count 0 ids) (bins (maximum 0 ids) ids) (h 0)
      (bins-bound m (maximum 0 ids) ids h)

-- The run so far counts for its own number.
abbrev so_far : ℕ → ℕ → ℕ → ℕ
so_far k c v = if c == v then k else 0

module _ {ℓ} {F : Type ℓ} ⦃fl : Float F⦄ where
  -- The length of the longest run of equal neighbours, scanned with the length of the run so far.
  unfoldable pub longest_run : ℕ → F → List F → ℕ
  longest_run k x [] = k
  longest_run k x (y ∷ ys) =
      let longer = longest_run (suc k) y ys in
      let fresh = max k (longest_run 1 y ys) in if eq y x then longer else fresh

  before_first : (c v : ℕ) (x : F) (ys : List F) → v < c → count v (run_ids_from c x ys) ≡ 0
  unfolding run_ids_from
  before_first c v x [] h = refl
  before_first c v x (y ∷ ys) h = elim (Bool-cases (eq y x)) [
    | inl e ↦ rw e (ground (arith, before_first c v y ys h))
    | inr e ↦ rw e (ground (arith, before_first (c + 1) v y ys (omega arith)))
  ]

  run-le :
      (k c v : ℕ) (x : F) (ys : List F)
      → so_far k c v + count v (run_ids_from c x ys) ≤ longest_run k x ys
  unfolding run_ids_from longest_run
  run-le k c v x [] = ground arith
  run-le k c v x (y ∷ ys) = elim (Bool-cases (eq y x)) [
    | inl e ↦ rw e (ground (arith, run-le (suc k) c v y ys))
    | inr e ↦
        rw e (
          ground (arith, run-le 1 (c + 1) v y ys, λ (h : v < c + 1). before_first (c + 1) v y ys h))
  ]

  run-attained :
      (k c : ℕ) (x : F) (ys : List F)
      → (v : ℕ) × (so_far k c v + count v (run_ids_from c x ys) ≡ longest_run k x ys)
  unfolding run_ids_from longest_run
  run-attained k c x [] = (c, ground arith)
  run-attained k c x (y ∷ ys) = elim (Bool-cases (eq y x)) [
    | inl e ↦ let (v, q) = run-attained (suc k) c y ys in rw e (v, ground (arith, q))
    | inr e ↦
        let (v, q) = run-attained 1 (c + 1) y ys in
        let none_before = before_first (c + 1) c y ys (omega arith) in
        elim (dec_le (longest_run 1 y ys) k) [
          | yes p ↦ rw e (c, ground (arith, p, none_before))
          | no p ↦ rw e (v, ground (arith, p, q, none_before))
        ]
  ]

  -- The largest bin of the run numbers is the length of the longest run of equal neighbours.
  pub largest_bin-run_ids :
      (x : F) (xs : List F) → largest_bin (run_ids (x ∷ xs)) ≡ longest_run 1 x xs
  unfolding run_ids
  largest_bin-run_ids x xs =
      let ids = 1 ∷ run_ids_from 1 x xs in
      let (v, q) = run-attained 1 1 x xs in
      let below =
        largest_bin-le (longest_run 1 x xs) ids (λ w. ground (arith, run-le 1 1 w x xs)) in
      let above : longest_run 1 x xs ≤ largest_bin ids =
        ground (arith, q, count-le-largest_bin v ids) in
      omega arith

  longest_run-le : (k : ℕ) (x : F) (ys : List F) → longest_run k x ys ≤ k + length ys
  unfolding longest_run
  longest_run-le k x [] = omega arith
  longest_run-le k x (y ∷ ys) = ground (arith, longest_run-le (suc k) y ys, longest_run-le 1 y ys)

  -- The length of the longest run of equal neighbours of a list.
  abbrev pub longest_flat : List F → ℕ
  longest_flat [] = 0
  longest_flat (x ∷ xs) = longest_run 1 x xs

  longest_flat-le : (xs : List F) → longest_flat xs ≤ length xs
  longest_flat-le [] = omega arith
  longest_flat-le (x ∷ xs) = omega (arith, longest_run-le 1 x xs)

module _ {ℓ} {F : Type ℓ} ⦃fl : Float F⦄ ⦃nm : Numerics F⦄ where
  -- If sorting by time keeps the number of the bars, then with a positive threshold `check_flatline` reports
  -- exactly if the closes in the sorted order have a run of equal neighbours of that length, whatever the
  -- volumes are, and its count is the length of the longest such run. The return for too few bars loses
  -- nothing.
  pub check_flatline-longest_flat :
      (min_run : ℕ) (bars : List (Bar F))
      → 0 < min_run
      → length (nm.sort_values bars) ≡ length bars
      → let longest = longest_flat (close_column (nm.sort_values bars)) in
        map (λ i. i.count) (check_flatline min_run bars)
        ≡ (if leb min_run longest then longest ∷ [] else [])
  unfolding check_flatline
  check_flatline-longest_flat min_run bars h kept =
      let closes = close_column (nm.sort_values bars) in
      let same : length closes ≡ length bars =
        length-map (λ b. b.close) (nm.sort_values bars) ∙ kept in
      elim (Bool-cases (ltb (length bars) min_run)) [
        | inl e ↦ rw e (ground (arith, e, same, longest_flat-le closes))
        | inr e ↦ rw e (of_closes closes)
      ]
    where
      of_closes :
          (closes : List F)
          → map (λ i. i.count) (nonempty_flatline min_run closes)
            ≡ (if leb min_run (longest_flat closes) then longest_flat closes ∷ [] else [])
      of_closes [] = ground arith
      of_closes (x ∷ xs) = rw (largest_bin-run_ids x xs) (ground arith)
