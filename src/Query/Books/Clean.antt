-- ===== src/Query/Books/Clean.antt =====
-- What `book_quality` finds in the snapshots that Kraken's stream of books yields.
use crypto_data_aggregator.Prelude.{
  ℕ, ◌≡◌, refl, Bool, true, false, Option, List, [], ◌∷◌, All, All-imp, Ascends, arith,
}
use crypto_data_aggregator.Prelude.Order.{lt, eq}
use crypto_data_aggregator.Prelude.Sorting.{length-sorted_set}
use crypto_data_aggregator.Float.{Float, float_order}
use crypto_data_aggregator.Python.{Json, Python}
use crypto_data_aggregator.Rows.{BookSnapshot}
use crypto_data_aggregator.Sources.{Session}
use crypto_data_aggregator.Sources.Book.Kraken
use crypto_data_aggregator.Sources.Book.Invariant.{IsSnapshot}
use crypto_data_aggregator.Sources.Book.Snapshots.{kraken-IsSnapshot}
use crypto_data_aggregator.Query.Books.{
  Counts, no_counts, any_neighbours, has_duplicate, count_levels, prices, sizes, count_sides,
  count_snapshots,
}

-- No snapshot so far has its levels out of order or a price twice.
pub record HasOrderedLevels (c : Counts) : Type 0 where
  pub bids_in_order : c.bids_not_descending ≡ 0
  pub asks_in_order : c.asks_not_ascending ≡ 0
  pub no_duplicate : c.duplicate_price_level ≡ 0

module _ {ℓ} {F : Type ℓ} ⦃fl : Float F⦄ where
  prices-Ascends {κ} :
      (R : F → F → Type κ) (ls : List (F × F))
      → Ascends (λ a b. R a.0 b.0) ls
      → Ascends R (prices ls)
  prices-Ascends R [] h = tt
  prices-Ascends R (l ∷ ls) h = (related ls h.0, prices-Ascends R ls h.1)
    where
      related : (ks : List (F × F)) → All (λ b. R l.0 b.0) ks → All (R l.0) (prices ks)
      related [] k = tt
      related (b ∷ ks) k = (k.0, related ks k.1)

  any_neighbours-Ascends :
      (p : F → F → Bool) (xs : List F)
      → Ascends (λ a b. p a b ≡ false) xs
      → any_neighbours p xs ≡ false
  any_neighbours-Ascends p [] h = refl
  any_neighbours-Ascends p (x ∷ []) h = refl
  any_neighbours-Ascends p (x ∷ y ∷ ys) h = rw h.0.0 (any_neighbours-Ascends p (y ∷ ys) h.1)

  has_duplicate-Ascends :
      (xs : List F) → Ascends (λ a b. eq a b ≡ false) xs → has_duplicate xs ≡ false
  unfolding has_duplicate
  has_duplicate-Ascends xs h = rw (length-sorted_set xs h) (ground arith)

Ascends-imp {ℓ κ μ} :
    {A : Type ℓ} {R : A → A → Type κ} {S : A → A → Type μ}
    → ((a b : A) → R a b → S a b)
    → (xs : List A) → Ascends R xs
    → Ascends S xs
Ascends-imp f [] h = tt
Ascends-imp f (x ∷ xs) h = (All-imp (f x) xs h.0, Ascends-imp f xs h.1)

module _ {ℓ} {F : Type ℓ} ⦃fl : Float F⦄ where
  not_before : (a b : F) → lt b a ≡ true → lt a b ≡ false
  not_before a b h = ground (arith, h, fl.order.le_total a b)

  other_of_before : (a b : F) → lt a b ≡ true → eq a b ≡ false
  other_of_before a b h = ground (arith, h)

  other_of_after : (a b : F) → lt b a ≡ true → eq a b ≡ false
  other_of_after a b h = ground (arith, h)

  count_levels-HasOrderedLevels :
      (bids asks : List (F × F)) (c : Counts)
      → Ascends (λ a b. lt b.0 a.0 ≡ true) bids
      → Ascends (λ a b. lt a.0 b.0 ≡ true) asks
      → HasOrderedLevels c
      → HasOrderedLevels (count_levels (prices bids) (prices asks) (sizes bids) (sizes asks) c)
  unfolding count_levels
  count_levels-HasOrderedLevels bids asks c h k o =
      let down : Ascends (λ a b. lt b a ≡ true) (prices bids) = prices-Ascends _ bids h in
      let up : Ascends (λ a b. lt a b ≡ true) (prices asks) = prices-Ascends _ asks k in
      record {
        bids_in_order =
            rw
              (any_neighbours-Ascends (λ x y. lt x y) (prices bids) (Ascends-imp not_before _ down))
              o.bids_in_order;
        asks_in_order =
            rw
              (any_neighbours-Ascends (λ x y. lt y x) (prices asks)
                (Ascends-imp (λ a b. not_before b a) _ up))
              o.asks_in_order;
        no_duplicate =
            rw
              (
                has_duplicate-Ascends (prices bids) (Ascends-imp other_of_after _ down),
                has_duplicate-Ascends (prices asks) (Ascends-imp other_of_before _ up),
              )
              o.no_duplicate;
      }

  count_sides-HasOrderedLevels :
      (bids asks : List (F × F)) (c : Counts)
      → Ascends (λ a b. lt b.0 a.0 ≡ true) bids
      → Ascends (λ a b. lt a.0 b.0 ≡ true) asks
      → HasOrderedLevels c
      → HasOrderedLevels (count_sides bids asks c)
  unfolding count_sides
  count_sides-HasOrderedLevels [] asks c h k o = record {
    bids_in_order = o.bids_in_order;
    asks_in_order = o.asks_in_order;
    no_duplicate = o.no_duplicate;
  }
  count_sides-HasOrderedLevels (b ∷ bids) [] c h k o = record {
    bids_in_order = o.bids_in_order;
    asks_in_order = o.asks_in_order;
    no_duplicate = o.no_duplicate;
  }
  count_sides-HasOrderedLevels (b ∷ bids) (a ∷ asks) c h k o =
      count_levels-HasOrderedLevels (b ∷ bids) (a ∷ asks) c h k o

  count_snapshots-HasOrderedLevels :
      (depth : ℕ) (c : Counts) (rows : List (BookSnapshot F))
      → All (IsSnapshot depth) rows
      → HasOrderedLevels c
      → HasOrderedLevels (count_snapshots c rows)
  unfolding count_snapshots
  count_snapshots-HasOrderedLevels depth c [] h o = o
  count_snapshots-HasOrderedLevels depth c (r ∷ rows) h o =
      count_snapshots-HasOrderedLevels depth (count_sides r.bids r.asks c) rows h.1
        (count_sides-HasOrderedLevels r.bids r.asks c h.0.bids_descend h.0.asks_ascend o)

module _ {ℓ} {F : Type ℓ} ⦃fl : Float F⦄ ⦃py : Python F⦄ where
  -- Whatever frames Kraken sends, in the snapshots that its stream of books yields `book_quality` counts
  -- none with bids that do not descend, asks that do not ascend or a price that stands twice on a side.
  pub kraken-HasOrderedLevels :
      (depth : ℕ) (sessions : ℕ → Session) (frames : List (Option (Json F)))
      → HasOrderedLevels (count_snapshots no_counts (Kraken.stream_book depth sessions frames).0)
  kraken-HasOrderedLevels depth sessions frames =
      count_snapshots-HasOrderedLevels depth no_counts _ (kraken-IsSnapshot depth sessions frames).0
        (record { bids_in_order = refl; asks_in_order = refl; no_duplicate = refl })
