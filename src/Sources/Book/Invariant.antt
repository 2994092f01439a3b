-- ===== src/Sources/Book/Invariant.antt =====
-- The books of Kraken and Coinbase: no price twice, no size of zero; and their snapshots.
use Prim.Native.String.{String}
use crypto_data_aggregator.Prelude.{
  ℕ, ◌≤◌, ◌≡◌, inl, inr, Bool-cases, true, false, List, [], ◌∷◌, All, Ascends, length, arith,
}
use crypto_data_aggregator.Prelude.Order.{eq, lt, ◌≼◌, pair_order, pair_le-fst, descending}
use crypto_data_aggregator.Prelude.Dict.{put, remove, All-put, All-remove}
use crypto_data_aggregator.Prelude.Sorting.{All-sorted, sorted-Ascends, sorted-Ascends_sym}
use crypto_data_aggregator.Prelude.Prefixes.{All-take, Ascends-take, length-take_le}
use crypto_data_aggregator.Float.{Float, float_order, nought}
use crypto_data_aggregator.Rows.{BookSnapshot}
use crypto_data_aggregator.Sources.{Session}
use crypto_data_aggregator.Sources.Book.{
  Book, empty_book, Side, bid_side, ask_side, set_level, set_side, bids_sorted, asks_sorted,
  snapshot_of,
}

module _ {ℓ} {F : Type ℓ} ⦃fl : Float F⦄ where
  abbrev pub HasSize : F × F → Type 0
  HasSize level = eq level.1 nought ≡ false

  abbrev pub HasOtherPrice : F × F → F × F → Type 0
  HasOtherPrice a b = eq a.0 b.0 ≡ false

  pub record IsLevels (levels : List (F × F)) : Type 0 where
    pub sizes : All HasSize levels
    pub prices : Ascends HasOtherPrice levels

  pub record IsBook (book : Book F) : Type 0 where
    pub bid : IsLevels book.bid
    pub ask : IsLevels book.ask

  -- Bids from the highest price down, asks from the lowest up, at most `depth` of each, none empty.
  pub record IsSnapshot (depth : ℕ) (s : BookSnapshot F) : Type 0 where
    pub bids_descend : Ascends (λ a b. lt b.0 a.0 ≡ true) s.bids
    pub asks_ascend : Ascends (λ a b. lt a.0 b.0 ≡ true) s.asks
    pub bid_sizes : All HasSize s.bids
    pub ask_sizes : All HasSize s.asks
    pub bids_le_depth : length s.bids ≤ depth
    pub asks_le_depth : length s.asks ≤ depth

  pub empty_book-IsBook : IsBook empty_book
  empty_book-IsBook = record {
    bid = record { sizes = tt; prices = tt };
    ask = record { sizes = tt; prices = tt };
  }

  put-HasOtherPrice :
      (px sz : F) (levels : List (F × F))
      → Ascends HasOtherPrice levels
      → Ascends HasOtherPrice (put px sz levels)
  unfolding put
  put-HasOtherPrice px sz [] h = (tt, tt)
  put-HasOtherPrice px sz ((p, s) ∷ levels) h = elim (Bool-cases (eq p px)) [
    | inl e ↦ rw e h
    | inr e ↦ rw e (All-put _ px sz levels e h.0, put-HasOtherPrice px sz levels h.1)
  ]

  remove-HasOtherPrice :
      (px : F) (levels : List (F × F))
      → Ascends HasOtherPrice levels
      → Ascends HasOtherPrice (remove px levels)
  unfolding remove
  remove-HasOtherPrice px [] h = tt
  remove-HasOtherPrice px ((p, s) ∷ levels) h = elim (Bool-cases (eq p px)) [
    | inl e ↦ rw e h.1
    | inr e ↦ rw e (All-remove _ px levels h.0, remove-HasOtherPrice px levels h.1)
  ]

  set_level-IsLevels :
      (px sz : F) (levels : List (F × F)) → IsLevels levels → IsLevels (set_level px sz levels)
  unfolding set_level
  set_level-IsLevels px sz levels h = elim (Bool-cases (eq sz nought)) [
    | inl e ↦ rw e (record {
      sizes = All-remove _ px levels h.sizes;
      prices = remove-HasOtherPrice px levels h.prices;
    })
    | inr e ↦ rw e (record {
      sizes = All-put _ px sz levels e h.sizes;
      prices = put-HasOtherPrice px sz levels h.prices;
    })
  ]

  pub set_side-IsBook :
      (side : Side) (px sz : F) (book : Book F) → IsBook book → IsBook (set_side side px sz book)
  unfolding set_side
  set_side-IsBook bid_side px sz book h = record {
    bid = set_level-IsLevels px sz book.bid h.bid;
    ask = h.ask;
  }
  set_side-IsBook ask_side px sz book h = record {
    bid = h.bid;
    ask = set_level-IsLevels px sz book.ask h.ask;
  }

Ascends-both {ℓ κ μ ν} :
    {A : Type ℓ} {R : A → A → Type κ} {S : A → A → Type μ} {T : A → A → Type ν}
    → ((a b : A) → R a b → S a b → T a b)
    → (xs : List A) → Ascends R xs
    → Ascends S xs
    → Ascends T xs
Ascends-both f [] h k = tt
Ascends-both {A = A} {R = R} {S = S} {T = T} f (x ∷ xs) h k =
    (both xs h.0 k.0, Ascends-both f xs h.1 k.1)
  where
    both : (ys : List A) → All (R x) ys → All (S x) ys → All (T x) ys
    both [] r s = tt
    both (y ∷ ys) r s = (f x y r.0 s.0, both ys r.1 s.1)

module _ {ℓ} {F : Type ℓ} ⦃fl : Float F⦄ where
  other_price_sym : (a b : F × F) → HasOtherPrice a b → HasOtherPrice b a
  other_price_sym a b h = ground (arith, h)

  price_lt : (a b : F × F) → a ≼ b → HasOtherPrice a b → lt a.0 b.0 ≡ true
  price_lt a b h k = ground (arith, pair_le-fst a b h, k)

  price_gt : (a b : F × F) → b ≼ a → HasOtherPrice a b → lt b.0 a.0 ≡ true
  price_gt a b h k = ground (arith, pair_le-fst b a h, k)

  pub snapshot_of-IsSnapshot :
      (session : Session) (i : ℕ) (venue canonical : String) (depth : ℕ) (book : Book F)
      → IsBook book
      → IsSnapshot depth (snapshot_of session i venue canonical depth book)
  unfolding snapshot_of bids_sorted asks_sorted
  snapshot_of-IsSnapshot session i venue canonical depth book h = record {
    bids_descend = Ascends-take _ depth _ (
        Ascends-both price_gt _ (sorted-Ascends ⦃o = descending pair_order⦄ book.bid)
          (sorted-Ascends_sym ⦃o = descending pair_order⦄ _ other_price_sym book.bid h.bid.prices));
    asks_ascend = Ascends-take _ depth _ (
        Ascends-both price_lt _ (sorted-Ascends book.ask)
          (sorted-Ascends_sym _ other_price_sym book.ask h.ask.prices));
    bid_sizes = All-take _ depth _ (All-sorted ⦃o = descending pair_order⦄ _ book.bid h.bid.sizes);
    ask_sizes = All-take _ depth _ (All-sorted _ book.ask h.ask.sizes);
    bids_le_depth = length-take_le depth _;
    asks_le_depth = length-take_le depth _;
  }
