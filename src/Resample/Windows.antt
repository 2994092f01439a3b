-- ===== src/Resample/Windows.antt =====
-- What the windows keep of the bars.
use Prim.Native.String.{String}
use crypto_data_aggregator.Prelude.{
  ℕ, ◌≡◌, refl, subst, inl, inr, ◌||◌, List, [], ◌∷◌, map, arith, total_of, All, All-imp, All-map,
  All-last_of, Bool-cases,
}
use crypto_data_aggregator.Prelude.Order.{
  nat_order, text_order, ◌≼◌, eq, maximum, minimum, le-maximum, minimum-le,
}
use crypto_data_aggregator.Prelude.Groups.{
  group_loop, weighed, weighed-group_loop, Grouped, group_loop-Grouped,
}
use crypto_data_aggregator.Float.{Float, float_order, IsFloat}
use crypto_data_aggregator.Trade.{Trade, Bar, second_of}
use crypto_data_aggregator.Consolidated.Bars.Shape.{IsAggBar, build_agg_bars-IsAggBar}
use crypto_data_aggregator.Consolidated.Bars.{Options, build_agg_bars}
use crypto_data_aggregator.Resample.{window_bar, window_bars, resample_bars}

module _ {ℓ} {F : Type ℓ} ⦃fl : Float F⦄ where
  abbrev trade_count : List (Bar F) → ℕ
  trade_count bars = total_of (map (λ b. b.trades) bars)

  window_bars-trade_count :
      (symbol venue : String) (groups : List (ℕ × List (Bar F)))
      → trade_count (window_bars symbol venue groups) ≡ weighed (λ b. b.trades) groups
  unfolding window_bars
  window_bars-trade_count symbol venue [] = refl
  window_bars-trade_count symbol venue ((edge, []) ∷ more) =
      omega (arith, window_bars-trade_count symbol venue more)
  window_bars-trade_count symbol venue ((edge, b ∷ bs) ∷ more) =
      omega (arith, window_bars-trade_count symbol venue more)

  -- The trade counts of the windows add up to those of the bars, whatever the windows are.
  pub resample_bars-trade_count :
      (symbol venue : String) (left_edge : String → ℕ → ℕ) (timeframe : String)
      (bars : List (Bar F))
      → total_of (map (λ b. b.trades) (resample_bars symbol venue left_edge timeframe bars))
        ≡ total_of (map (λ b. b.trades) bars)
  unfolding resample_bars
  resample_bars-trade_count symbol venue left_edge timeframe bars =
      elim (Bool-cases (eq timeframe "1s" || eq timeframe "1S")) [
        | inl e ↦ rw e refl
        | inr e ↦ rw e (
            omega (
              arith,
              window_bars-trade_count symbol venue
                  (group_loop (λ (b : Bar F). left_edge timeframe b.ts_ns) (λ b. b) bars []),
              weighed-group_loop (λ (b : Bar F). left_edge timeframe b.ts_ns) (λ b. b)
                  (λ b. b.trades) bars [],
            ))
      ]

  -- The closes of bars lie between what bounds their highs and their lows.
  closes_within :
      (symbol : String) (high low : F) (bars : List (Bar F))
      → All (λ y. y ≼ high) (map (λ c. c.high) bars)
      → All (λ y. low ≼ y) (map (λ c. c.low) bars)
      → All (IsAggBar symbol) bars
      → All (λ c. (c.close ≼ high) × (low ≼ c.close)) bars
  closes_within symbol high low [] h l k = tt
  closes_within symbol high low (b ∷ bs) h l k = (
    (
      float_order.le_trans b.close b.high high k.0.close-le_high h.0,
      float_order.le_trans low b.low b.close l.0 k.0.low-le_close,
    ),
    closes_within symbol high low bs h.1 l.1 k.1,
  )

  module _ (laws : IsFloat F) (symbol : String) where
    window_bar-IsAggBar :
        (edge : ℕ) (b : Bar F) (bs : List (Bar F))
        → second_of edge ≡ edge
        → All (IsAggBar symbol) (b ∷ bs)
        → IsAggBar symbol (window_bar symbol "agg" edge b bs)
    unfolding window_bar
    window_bar-IsAggBar edge b bs g h =
        let o = float_order {F = F} in
        let highs = map (λ (c : Bar F). c.high) bs in
        let lows = map (λ (c : Bar F). c.low) bs in
        let (top, tops) = le-maximum b.high highs in
        let (bottom, bottoms) = minimum-le b.low lows in
        let within =
          All-last_of
            (λ (c : Bar F). (c.close ≼ maximum b.high highs) × (minimum b.low lows ≼ c.close)) b bs
            (closes_within symbol _ _ (b ∷ bs) (top, tops) (bottom, bottoms) h) in
        record {
          on_grid = g;
          symbol_eq = refl;
          venue_eq = refl;
          low-le_open = o.le_trans _ b.low b.open_px bottom h.0.low-le_open;
          open-le_high = o.le_trans b.open_px b.high _ h.0.open-le_high top;
          low-le_close = within.1;
          close-le_high = within.0;
          has_trades = omega (arith, h.0.has_trades);
          has_volume =
              laws.sum_pos b.volume (map (λ c. c.volume) bs) (
                h.0.has_volume,
                All-map _ (λ c. c.volume) bs (All-imp (λ c k. k.has_volume) bs h.1),
              );
        }

    -- A bar of the tape in its window, which begins on a whole second.
    abbrev IsPlaced : ℕ → Bar F → Type ℓ
    IsPlaced edge b = (second_of edge ≡ edge) × IsAggBar symbol b

    window_bars-IsAggBar :
        (groups : List (ℕ × List (Bar F)))
        → Grouped IsPlaced groups
        → All (IsAggBar symbol) (window_bars symbol "agg" groups)
    unfolding window_bars
    window_bars-IsAggBar [] h = tt
    window_bars-IsAggBar ((edge, []) ∷ more) h = window_bars-IsAggBar more h.1
    window_bars-IsAggBar ((edge, b ∷ bs) ∷ more) h = (
      window_bar-IsAggBar edge b bs h.0.0.0 (h.0.0.1, All-imp (λ c k. k.1) bs h.0.1),
      window_bars-IsAggBar more h.1,
    )

    -- If the windows begin on whole seconds, the bars of the consolidated tape are still well formed in
    -- longer windows: on the second grid, of the symbol and of "agg", with open and close between low and
    -- high, at least one trade and a positive volume.
    pub resample_bars-IsAggBar :
        (left_edge : String → ℕ → ℕ) (timeframe : String)
        → ((n : ℕ) → second_of (left_edge timeframe n) ≡ left_edge timeframe n)
        → (opts : Options F) (now_ns : ℕ) (consolidated : List (Trade F)) → opts.symbol ≡ symbol
        → All (IsAggBar symbol) (
            resample_bars symbol "agg" left_edge timeframe
              (build_agg_bars opts now_ns consolidated).0)
    unfolding resample_bars
    resample_bars-IsAggBar left_edge timeframe on_grid opts now_ns consolidated named =
        let tape = (build_agg_bars opts now_ns consolidated).0 in
        let sane : All (IsAggBar symbol) tape =
          subst (λ s. All (IsAggBar s) tape) named
            (build_agg_bars-IsAggBar opts now_ns consolidated) in
        elim (Bool-cases (eq timeframe "1s" || eq timeframe "1S")) [
          | inl e ↦ rw e sane
          | inr e ↦ rw e (
              window_bars-IsAggBar _ (
                group_loop-Grouped (λ (b : Bar F). left_edge timeframe b.ts_ns) (λ b. b) IsPlaced
                  tape [] (All-imp (λ b k. (on_grid b.ts_ns, k)) tape sane) tt))
        ]
