-- ===== src/Query/Books.antt =====
-- `book_quality` of cryptodata/query/books.py, over a list of stored snapshots.
pub mod Clean
mod Tests
use Prim.Native.String.{String}
use crypto_data_aggregator.Prelude.{
  ℕ, suc, ◌+◌, ◌==◌, Bool, true, false, not, ◌||◌, List, [], ◌∷◌, ◌++◌, map, length, if◌then◌else◌,
}
use crypto_data_aggregator.Prelude.Order.{lt, eq}
use crypto_data_aggregator.Prelude.Sorting.{sorted_set}
use crypto_data_aggregator.Float.{Float, float_order, nought}
use crypto_data_aggregator.Rows.{BookSnapshot}

-- `counts`
pub record Counts : Type 0 where
  pub empty_side : ℕ
  pub crossed_top : ℕ
  pub bids_not_descending : ℕ
  pub asks_not_ascending : ℕ
  pub nonpositive_level : ℕ
  pub duplicate_price_level : ℕ

abbrev pub no_counts : Counts
no_counts = record {
  empty_side = 0;
  crossed_top = 0;
  bids_not_descending = 0;
  asks_not_ascending = 0;
  nonpositive_level = 0;
  duplicate_price_level = 0;
}

-- `if c: counts[...] += 1`
abbrev counted : Bool → ℕ → ℕ
counted c n = if c then suc n else n

module _ {ℓ} {A : Type ℓ} where
  -- `any(p(x) for x in xs)`, and `any(p(xs[i], xs[i + 1]) for i in range(len(xs) - 1))`.
  abbrev any : (A → Bool) → List A → Bool
  any p [] = false
  any p (x ∷ xs) = p x || any p xs

  abbrev pub any_neighbours : (A → A → Bool) → List A → Bool
  any_neighbours p [] = false
  any_neighbours p (x ∷ []) = false
  any_neighbours p (x ∷ y ∷ ys) = p x y || any_neighbours p (y ∷ ys)

module _ {ℓ} {F : Type ℓ} ⦃fl : Float F⦄ where
  -- `bpx[0] >= apx[0]`
  abbrev is_crossed_top : List F → List F → Bool
  is_crossed_top (b ∷ bs) (a ∷ qs) = float_order.le a b
  is_crossed_top bs qs = false

  -- `len(set(px)) != len(px)`
  unfoldable pub has_duplicate : List F → Bool
  unfolding sorted_set
  has_duplicate px = not (length (sorted_set px) == length px)

  -- The turn of the loop for a snapshot with both sides.
  unfoldable pub count_levels : List F → List F → List F → List F → Counts → Counts
  unfolding has_duplicate
  count_levels bpx apx bsz asz c = record {
    empty_side = c.empty_side;
    crossed_top = counted (is_crossed_top bpx apx) c.crossed_top;
    bids_not_descending = counted (any_neighbours (λ x y. lt x y) bpx) c.bids_not_descending;
    asks_not_ascending = counted (any_neighbours (λ x y. lt y x) apx) c.asks_not_ascending;
    nonpositive_level =
        counted
          (any (λ p. float_order.le p nought) (bpx ++ apx) || any (λ s. lt s nought) (bsz ++ asz))
          c.nonpositive_level;
    duplicate_price_level =
        counted (has_duplicate bpx || has_duplicate apx) c.duplicate_price_level;
  }

  abbrev pub prices : List (F × F) → List F
  prices [] = []
  prices (l ∷ ls) = l.0 ∷ prices ls

  abbrev pub sizes : List (F × F) → List F
  sizes [] = []
  sizes (l ∷ ls) = l.1 ∷ sizes ls

  unfoldable pub count_sides : List (F × F) → List (F × F) → Counts → Counts
  unfolding count_levels
  count_sides [] asks c = record c { empty_side = suc c.empty_side }
  count_sides bids [] c = record c { empty_side = suc c.empty_side }
  count_sides bids asks c = count_levels (prices bids) (prices asks) (sizes bids) (sizes asks) c

  -- `for _, r in snapshots.iterrows()`
  unfoldable pub count_snapshots : Counts → List (BookSnapshot F) → Counts
  unfolding count_sides
  count_snapshots c [] = c
  count_snapshots c (r ∷ rows) = count_snapshots (count_sides r.bids r.asks c) rows

-- `{k: v for k, v in counts.items() if v}`
abbrev issue_of : String → ℕ → List (String × ℕ)
issue_of k v = if v == 0 then [] else (k, v) ∷ []

unfoldable pub issues_of : Counts → List (String × ℕ)
issues_of c =
    issue_of "empty_side" c.empty_side
    ++ issue_of "crossed_top" c.crossed_top
    ++ issue_of "bids_not_descending" c.bids_not_descending
    ++ issue_of "asks_not_ascending" c.asks_not_ascending
    ++ issue_of "nonpositive_level" c.nonpositive_level
    ++ issue_of "duplicate_price_level" c.duplicate_price_level
