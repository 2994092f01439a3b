-- ===== src/Aggregate/Second/Outcome.antt =====
-- When `aggregate_second` returns a bar, and which bars it combines.
use Prim.Native.String.{String}
use crypto_data_aggregator.Prelude.{
  ℕ, ◌≡◌, refl, ap, ◌∙◌, subst, true, inl, inr, Option, some, List, [], ◌∷◌, map, arith, leb,
  length, select, All, All-and, All-select, All-select_keep, All-map, All-of_map, In, here,
  In-select, In-of_map, Bool-cases,
}
use crypto_data_aggregator.Prelude.Order.{
  ◌≼◌, lt, ≼_of_lt, ≼_of_not-lt, maximum, minimum, le-maximum, minimum-le,
}
use crypto_data_aggregator.Float.{Float, float_order, IsFloat, nought, one}
use crypto_data_aggregator.Trade.{Bar}
use crypto_data_aggregator.Consolidated.Median.{median, In-le_median}
use crypto_data_aggregator.Consolidated.Bars.{index_or}
use crypto_data_aggregator.Aggregate.Second.{
  is_used, close_dev, closes, close_threshold, keep_closes, combine, combine_kept, combine_used,
  aggregate_second,
}

module _ {ℓ} {F : Type ℓ} ⦃fl : Float F⦄ where
  All-keep_closes {κ} :
      (P : Bar F → Type κ) (outlier_sigma : F) (b : Bar F) (bs : List (Bar F))
      → All P (b ∷ bs)
      → All P (keep_closes outlier_sigma b bs)
  unfolding keep_closes
  All-keep_closes P outlier_sigma b bs h =
      let med = median b.close (closes bs) in
      let mad = median (close_dev med b.close) (map (close_dev med) (closes bs)) in
      let near = λ (x : Bar F).
        float_order.le (close_dev med x.close) (close_threshold outlier_sigma med mad) in
      elim (Bool-cases (leb 3 (length (b ∷ bs)))) [
        | inl e ↦ rw e (All-select_keep P near (b ∷ bs) h)
        | inr e ↦ rw e h
      ]

  module _ (venues_index : Option (List (String × ℕ))) (excluded : List String) (now_ns : ℕ) where
    -- `a` combines some bars of the input that have volume and are not excluded, and its range spans theirs.
    abbrev pub Combines : List (Bar F) → Bar F → Type ℓ
    Combines per_venue_bars a =
        (index : List (String × ℕ)) × (k : Bar F) × (ks : List (Bar F)) × (combine index now_ns k ks
          ≡ a)
        × All (λ x. In x per_venue_bars × (is_used excluded x ≡ true)) (k ∷ ks)
        × All (λ x. (a.low ≼ x.low) × (x.high ≼ a.high)) (k ∷ ks)

    combine_kept-Combines :
        (index : List (String × ℕ)) (per_venue_bars kept : List (Bar F)) {a : Bar F}
        → All (λ x. In x per_venue_bars × (is_used excluded x ≡ true)) kept
        → combine_kept index now_ns kept ≡ some a
        → Combines per_venue_bars a
    unfolding combine_kept
    combine_kept-Combines index bars [] h e = cc
    combine_kept-Combines index bars (k ∷ ks) {a} h e =
        let q : combine index now_ns k ks ≡ a = ground (arith, e) in
        let top = le-maximum k.high (map (λ b. b.high) ks) in
        let low = minimum-le k.low (map (λ b. b.low) ks) in
        let hi = maximum k.high (map (λ b. b.high) ks) in
        let lo = minimum k.low (map (λ b. b.low) ks) in
        (
          index,
          k,
          ks,
          q,
          h,
          subst (λ c. All (λ x. (c.low ≼ x.low) × (x.high ≼ c.high)) (k ∷ ks)) q
              (unfold combine in
                (
                  (low.0, top.0),
                  All-and (λ x. lo ≼ x.low) (λ x. x.high ≼ hi) ks
                      (All-of_map (λ p. lo ≼ p) (λ b. b.low) ks low.1)
                      (All-of_map (λ p. p ≼ hi) (λ b. b.high) ks top.1),
                )),
        )

    combine_used-Combines :
        (outlier_sigma : F) (per_venue_bars used : List (Bar F)) {a : Bar F}
        → All (λ x. In x per_venue_bars × (is_used excluded x ≡ true)) used
        → combine_used outlier_sigma venues_index now_ns used ≡ some a
        → Combines per_venue_bars a
    unfolding combine_used
    combine_used-Combines sigma bars [] h e = cc
    combine_used-Combines sigma bars (b ∷ bs) h e =
        combine_kept-Combines (index_or venues_index (map (λ x. x.venue) (b ∷ bs))) bars
          (keep_closes sigma b bs)
          (All-keep_closes (λ x. In x bars × (is_used excluded x ≡ true)) sigma b bs h) e

    -- A result combines bars of the input that have volume and whose venues are not excluded, and its
    -- range spans the range of each of them.
    pub aggregate_second-Combines :
        (outlier_sigma : F) (per_venue_bars : List (Bar F)) {a : Bar F}
        → aggregate_second outlier_sigma venues_index excluded now_ns per_venue_bars ≡ some a
        → Combines per_venue_bars a
    unfolding aggregate_second
    aggregate_second-Combines sigma bars e =
        combine_used-Combines sigma bars (select (is_used excluded) bars)
          (All-select (λ x. In x bars × (is_used excluded x ≡ true)) (is_used excluded) bars
            (λ x m u. (m, u)))
          e

    module _ (laws : IsFloat F) (outlier_sigma : F) (sigma-ge_one : one ≼ outlier_sigma) where
      mad-le_close_threshold : (med mad : F) → mad ≼ close_threshold outlier_sigma med mad
      unfolding close_threshold
      mad-le_close_threshold med mad = elim (Bool-cases (lt nought mad)) [
        | inl e ↦
            let pos = ≼_of_lt nought mad e in
            let up = laws.le-mul_left outlier_sigma mad sigma-ge_one pos in
            let scaled = fl.mul outlier_sigma mad in
            rw e (
              float_order.le_trans mad scaled _ up (
                laws.le-mul_right scaled (fl.of_decimal 14826 4) laws.one-le_sigma
                  (float_order.le_trans nought mad scaled pos up)))
        | inr e ↦
            let tiny = fl.of_decimal 1 12 in
            rw e (
              float_order.le_trans mad nought _ (≼_of_not-lt nought mad e) (
                float_order.le_trans nought tiny _ (laws.decimal_nonneg 1 12)
                  (le-maximum (fl.mul med (fl.of_decimal 1 3)) (tiny ∷ [])).1.0))
      ]

      keep_closes-survivor :
          (b : Bar F) (bs : List (Bar F)) → (x : Bar F) × In x (keep_closes outlier_sigma b bs)
      unfolding keep_closes
      keep_closes-survivor b bs =
          let med = median b.close (closes bs) in
          let mad = median (close_dev med b.close) (map (close_dev med) (closes bs)) in
          let thresh = close_threshold outlier_sigma med mad in
          let near = λ (x : Bar F). float_order.le (close_dev med x.close) thresh in
          elim (Bool-cases (leb 3 (length (b ∷ bs)))) [
            | inl e ↦
                let (d, m, le) =
                  In-le_median laws (close_dev med b.close) (map (close_dev med) (closes bs)) in
                let (c, n, p) = In-of_map (close_dev med) (closes (b ∷ bs)) m in
                let (x, o, q) = In-of_map (λ y. y.close) (b ∷ bs) n in
                let kept : near x ≡ true =
                  float_order.le_trans (close_dev med x.close) mad thresh
                    (subst (λ v. v ≼ mad) (p ∙ ap (close_dev med) q) le)
                    (mad-le_close_threshold med mad) in
                (x, rw e (In-select near (b ∷ bs) o kept))
            | inr e ↦ (b, rw e (here refl))
          ]

      combine_kept-some :
          (index : List (String × ℕ)) (kept : List (Bar F)) {x : Bar F}
          → In x kept
          → All (λ b. lt nought b.volume ≡ true) kept
          → (a : Bar F) × (combine_kept index now_ns kept ≡ some a)
      unfolding combine_kept
      combine_kept-some index [] m h = elim m [ ]
      combine_kept-some index (k ∷ ks) m h =
          let v =
            laws.sum_pos k.volume (map (λ b. b.volume) ks)
              (h.0, All-map _ (λ b. b.volume) ks h.1) in
          (combine index now_ns k ks, ground (arith, v))

      combine_used-some :
          (used : List (Bar F)) {x : Bar F}
          → In x used
          → All (λ b. lt nought b.volume ≡ true) used
          → (a : Bar F) × (combine_used outlier_sigma venues_index now_ns used ≡ some a)
      unfolding combine_used
      combine_used-some [] m h = elim m [ ]
      combine_used-some (b ∷ bs) m h =
          let (y, n) = keep_closes-survivor b bs in
          combine_kept-some (index_or venues_index (map (λ x. x.venue) (b ∷ bs)))
            (keep_closes outlier_sigma b bs) n
            (All-keep_closes (λ x. lt nought x.volume ≡ true) outlier_sigma b bs h)

      -- With `outlier_sigma >= 1`, a second in which some bar has volume and is not excluded always has a
      -- combined bar: the outlier filter never drops every venue.
      pub aggregate_second-some :
          (per_venue_bars : List (Bar F)) (x : Bar F)
          → In x per_venue_bars
          → is_used excluded x ≡ true
          → (a : Bar F) × (aggregate_second outlier_sigma venues_index excluded now_ns
                per_venue_bars
              ≡ some a)
      unfolding aggregate_second is_used
      aggregate_second-some bars x m u =
          combine_used-some (select (is_used excluded) bars) (In-select (is_used excluded) bars m u)
            (All-select (λ b. lt nought b.volume ≡ true) (is_used excluded) bars
              (λ b _ v. ground (arith, v)))
