-- ===== src/Quality/Tape.antt =====
-- The bars that `build_agg_bars` puts out, under the checks of the quality report.
use Prim.Native.String.{String}
use crypto_data_aggregator.Prelude.{
  ℕ, ◌<◌, ◌≡◌, refl, inl, inr, Bool, false, List, [], ◌∷◌, arith, ltb, ◌==◌, length, All, All-imp,
  ◌⊎◌, Ascends, Bool-cases,
}
use crypto_data_aggregator.Prelude.Order.{
  nat_order, maximum, minimum, maximum-le_bound, bound-le_minimum, ≼_of_lt,
}
use crypto_data_aggregator.Float.{Float, float_order, IsFloat, nought}
use crypto_data_aggregator.Trade.{Trade, Bar, second_of}
use crypto_data_aggregator.Consolidated.Bars.{Options, build_agg_bars}
use crypto_data_aggregator.Consolidated.Bars.Shape.{
  IsAggBar, build_agg_bars-Ascends, build_agg_bars-IsAggBar,
}
use crypto_data_aggregator.Quality.Issues.{
  none_selected, Named-append, Named-issue_if, Named-nil, All-of_Named,
}
use crypto_data_aggregator.Quality.{
  Issue, issue_if, neighbours, is_off_grid, check_timestamps, ts_column, check_bar_timestamps,
  is_high_below_body, is_low_above_body, is_high_below_low, is_negative_volume,
  check_bar_ohlc_invariants,
}

none_neighbour :
    (p : ℕ → ℕ → Bool) (ts : List ℕ)
    → ((a b : ℕ) → a < b → p a b ≡ false)
    → Ascends (λ a b. a < b) ts
    → neighbours p ts ≡ 0
unfolding neighbours
none_neighbour p [] f h = refl
none_neighbour p (a ∷ []) f h = refl
none_neighbour p (a ∷ b ∷ ts) f h = rw (f a b h.0.0) (none_neighbour p (b ∷ ts) f h.1)

check_timestamps-Ascends {ℓ} :
    (F : Type ℓ) (ts : List ℕ)
    → Ascends (λ a b. a < b) ts
    → All (λ t. is_off_grid t ≡ false) ts
    → check_timestamps {F = F} ts ≡ []
unfolding check_timestamps issue_if
check_timestamps-Ascends F ts h g =
    let ordered = none_neighbour (λ a b. ltb b a) ts (λ a b l. ground arith) h in
    let single = none_neighbour (λ a b. a == b) ts (λ a b l. ground arith) h in
    elim (Bool-cases (ltb (length ts) 2)) [
      | inl e ↦ rw e refl
      | inr e ↦ rw (e, ordered, single, none_selected is_off_grid ts g) refl
    ]

module _ {ℓ} {F : Type ℓ} where
  ts_column-Ascends :
      (bars : List (Bar F))
      → Ascends (λ (a b : Bar F). a.ts_ns < b.ts_ns) bars
      → Ascends (λ a b. a < b) (ts_column bars)
  ts_column-Ascends [] h = tt
  ts_column-Ascends (b ∷ bars) h = (all_later b bars h.0, ts_column-Ascends bars h.1)
    where
      all_later :
          (b : Bar F) (bars : List (Bar F))
          → All (λ (c : Bar F). b.ts_ns < c.ts_ns) bars
          → All (λ t. b.ts_ns < t) (ts_column bars)
      all_later b [] h = tt
      all_later b (c ∷ bars) h = (h.0, all_later b bars h.1)

  All-ts_column :
      (P : ℕ → Type 0) (bars : List (Bar F))
      → All (λ (b : Bar F). P b.ts_ns) bars
      → All P (ts_column bars)
  All-ts_column P [] h = tt
  All-ts_column P (b ∷ bars) h = (h.0, All-ts_column P bars h.1)

second_of-grid : (t : ℕ) → second_of t ≡ t → is_off_grid t ≡ false
unfolding second_of
second_of-grid t h = ground (arith, h)

module _ {ℓ} {F : Type ℓ} ⦃fl : Float F⦄ (opts : Options F) (now_ns : ℕ)
    (consolidated : List (Trade F)) where
  -- The bars of the consolidated tape pass `check_bar_timestamps`: none is out of order, doubled or off
  -- the second grid.
  pub check_bar_timestamps-build_agg_bars :
      check_bar_timestamps (build_agg_bars opts now_ns consolidated).0 ≡ []
  check_bar_timestamps-build_agg_bars =
      let bars = (build_agg_bars opts now_ns consolidated).0 in
      check_timestamps-Ascends F (ts_column bars)
        (ts_column-Ascends bars (build_agg_bars-Ascends opts now_ns consolidated))
        (All-ts_column (λ t. is_off_grid t ≡ false) bars
          (All-imp (λ b h. second_of-grid b.ts_ns h.on_grid) bars
            (build_agg_bars-IsAggBar opts now_ns consolidated)))

module _ {ℓ} {F : Type ℓ} ⦃fl : Float F⦄ (laws : IsFloat F) where
  high_is_above : {symbol : String} (b : Bar F) → IsAggBar symbol b → is_high_below_body b ≡ false
  unfolding is_high_below_body
  high_is_above b h =
      let body = maximum b.open_px (b.close ∷ []) in
      rw
        (float_order.le_trans _ body b.high
          (laws.sub_le body (fl.of_decimal 1 9) (laws.decimal_nonneg 1 9))
          (maximum-le_bound b.open_px b.close b.high h.open-le_high h.close-le_high))
        refl

  low_is_below : {symbol : String} (b : Bar F) → IsAggBar symbol b → is_low_above_body b ≡ false
  unfolding is_low_above_body
  low_is_below b h =
      let body = minimum b.open_px (b.close ∷ []) in
      rw
        (float_order.le_trans b.low body _
          (bound-le_minimum b.open_px b.close b.low h.low-le_open h.low-le_close)
          (laws.le_add body (fl.of_decimal 1 9) (laws.decimal_nonneg 1 9)))
        refl

  range_is_open : {symbol : String} (b : Bar F) → IsAggBar symbol b → is_high_below_low b ≡ false
  unfolding is_high_below_low
  range_is_open b h =
      rw
        (float_order.le_trans _ b.low b.high
          (laws.sub_le b.low (fl.of_decimal 1 9) (laws.decimal_nonneg 1 9))
          (float_order.le_trans b.low b.open_px b.high h.low-le_open h.open-le_high))
        refl

  volume_is_positive :
      {symbol : String} (b : Bar F) → IsAggBar symbol b → is_negative_volume b ≡ false
  unfolding is_negative_volume
  volume_is_positive b h = rw (≼_of_lt nought b.volume h.has_volume) refl

  -- Of the OHLC checks, only the one on the VWAP and the one on the sign of prices can find something
  -- in the bars of the consolidated tape.
  pub check_bar_ohlc_invariants-build_agg_bars :
      (opts : Options F) (now_ns : ℕ) (consolidated : List (Trade F))
      → All
          (λ (i : Issue F). (i.check ≡ "bar.vwap_outside_hl") ⊎ (i.check ≡ "bar.nonpositive_price"))
          (check_bar_ohlc_invariants (build_agg_bars opts now_ns consolidated).0)
  unfolding check_bar_ohlc_invariants issue_if
  check_bar_ohlc_invariants-build_agg_bars opts now_ns consolidated =
      let bars = (build_agg_bars opts now_ns consolidated).0 in
      let sane = build_agg_bars-IsAggBar opts now_ns consolidated in
      let P =
        λ (check : String). (check ≡ "bar.vwap_outside_hl") ⊎ (check ≡ "bar.nonpositive_price") in
      rw
        (
          none_selected is_high_below_body bars (All-imp high_is_above bars sane),
          none_selected is_low_above_body bars (All-imp low_is_below bars sane),
          none_selected is_high_below_low bars (All-imp range_is_open bars sane),
          none_selected is_negative_volume bars (All-imp volume_is_positive bars sane),
        )
        (All-of_Named {P = P} (search (Named-append, Named-issue_if, Named-nil, inl, inr, refl)))
