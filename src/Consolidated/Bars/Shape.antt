-- ===== src/Consolidated/Bars/Shape.antt =====
-- The bars of `build_agg_bars`: their order, and what holds of each.
use Prim.Native.String.{String}
use crypto_data_aggregator.Prelude.{
  ℕ, ◌<◌, ◌≡◌, refl, ap, subst, true, not, inl, inr, Option, none, some, List, [], ◌∷◌, arith, All,
  All-of_In, All-of_map, All-last_of, Ascends, Bool-cases,
}
use crypto_data_aggregator.Prelude.Order.{
  ◌≼◌, lt, nat_order, maximum, minimum, le-maximum, minimum-le,
}
use crypto_data_aggregator.Prelude.Sorting.{sorted_set, sorted_set-Ascends, All-sorted_set, Lt}
use crypto_data_aggregator.Prelude.Dict.{get_list, keys}
use crypto_data_aggregator.Float.{Float, float_order, nought}
use crypto_data_aggregator.Trade.{Trade, Bar, second_of, second_of_idem}
use crypto_data_aggregator.Consolidated.Filter.{robust_filter, prices}
use crypto_data_aggregator.Consolidated.Bars.{
  Options, bar_of, bar_or_skip, volume_of, second_loop, build_agg_bars, bucket_loop, cons_some,
  index_or,
}
use crypto_data_aggregator.Consolidated.Bars.Buckets.{All-keys-bucket_loop}

module _ {ℓ} {F : Type ℓ} ⦃fl : Float F⦄ where
  -- A sane bar of the given symbol: on the second grid, with its body inside its range, and with some
  -- volume of some trades.
  pub record IsAggBar (symbol : String) (b : Bar F) : Type ℓ where
    pub on_grid : second_of b.ts_ns ≡ b.ts_ns
    pub symbol_eq : b.symbol ≡ symbol
    pub venue_eq : b.venue ≡ "agg"
    pub low-le_open : b.low ≼ b.open_px
    pub open-le_high : b.open_px ≼ b.high
    pub low-le_close : b.low ≼ b.close
    pub close-le_high : b.close ≼ b.high
    pub has_trades : 0 < b.trades
    pub has_volume : lt nought b.volume ≡ true

  -- The survivors of a second.
  abbrev pub kept_of : Options F → List (ℕ × List (Trade F)) → ℕ → List (Trade F)
  kept_of opts by_sec sec =
      (robust_filter opts.mad_k opts.min_venues_for_filter (get_list sec by_sec)).0

  module _ (opts : Options F) (index : List (String × ℕ)) (now_ns : ℕ) where
    -- When there is a bar, there are survivors `t ∷ ts` with a positive volume, and it is theirs.
    pub bar_or_skip-eq_some :
        (sec : ℕ) (kept : List (Trade F)) {b : Bar F}
        → bar_or_skip opts index now_ns sec kept ≡ some b
        → (t : Trade F) × (ts : List (Trade F)) × (kept ≡ t ∷ ts)
          × (lt nought (volume_of (t ∷ ts)) ≡ true)
          × (bar_of opts index now_ns sec t ts ≡ b)
    unfolding bar_or_skip
    bar_or_skip-eq_some sec [] h = cc
    bar_or_skip-eq_some sec (t ∷ ts) h =
        elim (Bool-cases (float_order.le (volume_of (t ∷ ts)) nought)) [
          | inl e ↦ absurd (ground (arith, h, e))
          | inr e ↦ (t, ts, refl, ap not e, ground (arith, h, e))
        ]

    bar_of-IsAggBar :
        (sec : ℕ) (t : Trade F) (ts : List (Trade F))
        → second_of sec ≡ sec
        → lt nought (volume_of (t ∷ ts)) ≡ true
        → IsAggBar opts.symbol (bar_of opts index now_ns sec t ts)
    unfolding bar_of
    bar_of-IsAggBar sec t ts g v =
        let top = le-maximum t.price (prices ts) in
        let low = minimum-le t.price (prices ts) in
        let hi = maximum t.price (prices ts) in
        let lo = minimum t.price (prices ts) in
        record {
          on_grid = g;
          symbol_eq = refl;
          venue_eq = refl;
          low-le_open = low.0;
          open-le_high = top.0;
          low-le_close =
              All-last_of (λ u. lo ≼ u.price) t ts
                (low.0, All-of_map (λ p. lo ≼ p) (λ u. u.price) ts low.1);
          close-le_high =
              All-last_of (λ u. u.price ≼ hi) t ts
                (top.0, All-of_map (λ p. p ≼ hi) (λ u. u.price) ts top.1);
          has_trades = omega arith;
          has_volume = v;
        }

    All-cons_some {κ} :
        (Q : Bar F → Type κ) (o : Option (Bar F)) (bs : List (Bar F))
        → ((b : Bar F) → o ≡ some b → Q b)
        → All Q bs
        → All Q (cons_some o bs)
    All-cons_some Q none bs f h = h
    All-cons_some Q (some b) bs f h = (f b refl, h)

    -- Every bar of the second loop satisfies what the bar of a single second does.
    pub All-second_loop {κ μ} :
        (P : ℕ → Type κ) (Q : Bar F → Type μ) (by_sec : List (ℕ × List (Trade F))) (secs : List ℕ)
        → ((sec : ℕ) (b : Bar F)
            → P sec
            → bar_or_skip opts index now_ns sec (kept_of opts by_sec sec) ≡ some b
            → Q b)
        → All P secs
        → All Q (second_loop opts index now_ns by_sec secs).0
    unfolding second_loop
    All-second_loop P Q by_sec [] f h = tt
    All-second_loop P Q by_sec (sec ∷ secs) f h =
        let kept = kept_of opts by_sec sec in
        All-cons_some Q (bar_or_skip opts index now_ns sec kept) _ (λ b e. f sec b h.0 e)
          (All-second_loop P Q by_sec secs f h.1)

    pub bar_or_skip-ts :
        (sec : ℕ) (kept : List (Trade F)) (b : Bar F)
        → bar_or_skip opts index now_ns sec kept ≡ some b
        → sec ≡ b.ts_ns
    unfolding bar_of
    bar_or_skip-ts sec kept b e =
        let (t, ts, _, _, q) = bar_or_skip-eq_some sec kept e in ap (λ (x : Bar F). x.ts_ns) q

    abbrev pub Earlier : Bar F → Bar F → Type 0
    Earlier a b = a.ts_ns < b.ts_ns

    Ascends-cons_some :
        (o : Option (Bar F)) (bs : List (Bar F))
        → ((b : Bar F) → o ≡ some b → All (Earlier b) bs)
        → Ascends Earlier bs
        → Ascends Earlier (cons_some o bs)
    Ascends-cons_some none bs f h = h
    Ascends-cons_some (some b) bs f h = (f b refl, h)

    pub second_loop-Ascends :
        (by_sec : List (ℕ × List (Trade F))) (secs : List ℕ)
        → Ascends Lt secs
        → Ascends Earlier (second_loop opts index now_ns by_sec secs).0
    unfolding second_loop
    second_loop-Ascends by_sec [] h = tt
    second_loop-Ascends by_sec (sec ∷ secs) h =
        let kept = kept_of opts by_sec sec in
        Ascends-cons_some (bar_or_skip opts index now_ns sec kept) _
          (λ b e.
            let s = bar_or_skip-ts sec kept b e in
            All-second_loop (Lt sec) (Earlier b) by_sec secs
              (λ sec' b' l e'. later b b' sec sec' s (bar_or_skip-ts sec' _ b' e') l) h.0)
          (second_loop-Ascends by_sec secs h.1)
      where
        later : (b b' : Bar F) (m n : ℕ) → m ≡ b.ts_ns → n ≡ b'.ts_ns → Lt m n → b.ts_ns < b'.ts_ns
        later b b' m n p q l = ground arith

  module _ (opts : Options F) (now_ns : ℕ) (consolidated : List (Trade F)) where
    -- The bars come in strictly ascending order of time, so no second has two, whatever the order of
    -- the stream.
    pub build_agg_bars-Ascends :
        Ascends (λ (a b : Bar F). a.ts_ns < b.ts_ns) (build_agg_bars opts now_ns consolidated).0
    unfolding build_agg_bars
    build_agg_bars-Ascends =
        let st = bucket_loop opts consolidated ([], []) in
        second_loop-Ascends opts (index_or opts.venues_index st.1) now_ns st.0
          (sorted_set (keys st.0)) (sorted_set-Ascends (keys st.0))

    -- Every bar is on the second grid, carries the symbol and the venue "agg", has open and close
    -- between low and high, at least one trade and a positive volume.
    pub build_agg_bars-IsAggBar :
        All (IsAggBar opts.symbol) (build_agg_bars opts now_ns consolidated).0
    unfolding build_agg_bars
    build_agg_bars-IsAggBar =
        let st = bucket_loop opts consolidated ([], []) in
        let index = index_or opts.venues_index st.1 in
        let OnGrid = λ (sec : ℕ). second_of sec ≡ sec in
        let grid : All OnGrid (keys st.0) =
          All-keys-bucket_loop opts OnGrid consolidated ([], [])
            (All-of_In _ consolidated (λ t m. second_of_idem t.ts_ns)) tt in
        All-second_loop opts index now_ns OnGrid (IsAggBar opts.symbol) st.0
          (sorted_set (keys st.0))
          (λ sec b g e.
            let (t, ts, _, v, q) =
              bar_or_skip-eq_some opts index now_ns sec (kept_of opts st.0 sec) e in
            subst (IsAggBar opts.symbol) q (bar_of-IsAggBar opts index now_ns sec t ts g v))
          (All-sorted_set OnGrid (keys st.0) grid)
