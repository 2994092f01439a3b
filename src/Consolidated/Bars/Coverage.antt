-- ===== src/Consolidated/Bars/Coverage.antt =====
-- `build_agg_bars` from both sides: from a bar to its second, and from a trade to its bar.
use Prim.Native.String.{String}
use crypto_data_aggregator.Prelude.{
  ℕ, ◌≡◌, refl, sym, ap, ◌∙◌, subst, true, false, Option, none, some, List, [], ◌∷◌, arith, map,
  select, All, All-select, All-map, All-of_In, In, here, there, In-select,
}
use crypto_data_aggregator.Prelude.Order.{◌≼◌, lt, nat_order, eq_refl}
use crypto_data_aggregator.Prelude.Sorting.{sorted_set, In-sorted_set}
use crypto_data_aggregator.Prelude.Dict.{get_list, keys}
use crypto_data_aggregator.Float.{Float, float_order, IsFloat, nought, one}
use crypto_data_aggregator.Trade.{Trade, Bar, second_of}
use crypto_data_aggregator.Consolidated.Filter.{robust_filter}
use crypto_data_aggregator.Consolidated.Filter.Survivors.{robust_filter-survivor, All-robust_filter}
use crypto_data_aggregator.Consolidated.Bars.{
  Options, is_skipped, bar_of, bar_or_skip, volume_of, second_loop, build_agg_bars, bucket_loop,
  cons_some, index_or,
}
use crypto_data_aggregator.Consolidated.Bars.Buckets.{
  is_eligible, is_in_second, by_sec-select, In-second_keys, bucket_loop-select,
}
use crypto_data_aggregator.Consolidated.Bars.Shape.{
  kept_of, bar_or_skip-eq_some, bar_or_skip-ts, All-second_loop,
}

module _ {ℓ} {F : Type ℓ} ⦃fl : Float F⦄ (opts : Options F) (now_ns : ℕ) where
  -- Skipped trades leave no trace: neither in the bars, nor in the masks, nor in the diagnostics.
  pub build_agg_bars-select :
      (consolidated : List (Trade F))
      → build_agg_bars opts now_ns (select (is_eligible opts) consolidated)
        ≡ build_agg_bars opts now_ns consolidated
  unfolding build_agg_bars
  build_agg_bars-select consolidated = rw (bucket_loop-select opts consolidated ([], []))

  -- The survivors among the usable trades of a second.
  abbrev pub survivors : List (Trade F) → ℕ → List (Trade F)
  survivors consolidated sec =
      (robust_filter opts.mad_k opts.min_venues_for_filter
        (select (is_in_second opts sec) consolidated)).0

  -- `b` is built from the survivors of its second: they are `t ∷ ts`, and open, close, trade count,
  -- volume, range, vwap and mask are theirs.
  abbrev pub IsBarOf : List (String × ℕ) → List (Trade F) → Bar F → Type ℓ
  IsBarOf index consolidated b =
      (t : Trade F) × (ts : List (Trade F)) × (survivors consolidated b.ts_ns ≡ t ∷ ts)
      × (bar_of opts index now_ns b.ts_ns t ts ≡ b)

  -- Every bar is the bar of the survivors of the outlier filter, applied to all usable trades of its
  -- second in stream order, with the mask index that was given or else that of the venues seen.
  pub build_agg_bars-IsBarOf :
      (consolidated : List (Trade F))
      → All
          (IsBarOf
            (index_or opts.venues_index (bucket_loop opts consolidated ([], [])).1)
            consolidated)
          (build_agg_bars opts now_ns consolidated).0
  unfolding build_agg_bars
  build_agg_bars-IsBarOf consolidated =
      let st = bucket_loop opts consolidated ([], []) in
      let index = index_or opts.venues_index st.1 in
      All-second_loop opts index now_ns (λ sec. Unit {0}) (IsBarOf index consolidated) st.0
        (sorted_set (keys st.0))
        (λ sec b _ e.
          let (t, ts, k, _, q) =
            bar_or_skip-eq_some opts index now_ns sec (kept_of opts st.0 sec) e in
          let s = bar_or_skip-ts opts index now_ns sec (kept_of opts st.0 sec) b e in
          let raw = by_sec-select opts sec consolidated in
          let at = ap (λ r. (robust_filter opts.mad_k opts.min_venues_for_filter r).0) raw in
          (
            t,
            ts,
            ap (survivors consolidated) (sym s) ∙ sym at ∙ k,
            ap (λ n. bar_of opts index now_ns n t ts) (sym s) ∙ q,
          ))
        (All-of_In (λ sec. Unit {0}) _ (λ sec m. tt))

  module _ (laws : IsFloat F) (k-ge_one : one ≼ opts.mad_k) where
    size_pos : (t : Trade F) → is_skipped opts t ≡ false → lt nought t.size ≡ true
    unfolding is_skipped
    size_pos t e = ground arith

    In-cons_some :
        {b : Bar F} (o : Option (Bar F)) (bs : List (Bar F)) → In b bs → In b (cons_some o bs)
    In-cons_some none bs m = m
    In-cons_some (some c) bs m = there m

    -- A bucket of trades of positive size has a bar.
    bar_or_skip-some :
        (index : List (String × ℕ)) (sec : ℕ) (t : Trade F) (ts : List (Trade F))
        → All (λ u. lt nought u.size ≡ true) (t ∷ ts)
        → let kept = (robust_filter opts.mad_k opts.min_venues_for_filter (t ∷ ts)).0 in
          (b : Bar F) × (bar_or_skip opts index now_ns sec kept ≡ some b)
    unfolding bar_or_skip
    bar_or_skip-some index sec t ts h =
        let min_venues = opts.min_venues_for_filter in
        let (u, m) = robust_filter-survivor laws opts.mad_k k-ge_one min_venues t ts in
        full (robust_filter opts.mad_k min_venues (t ∷ ts)).0 m
          (All-robust_filter (λ u. lt nought u.size ≡ true) opts.mad_k min_venues (t ∷ ts) h)
      where
        full :
            {u : Trade F} (kept : List (Trade F))
            → In u kept
            → All (λ u. lt nought u.size ≡ true) kept
            → (b : Bar F) × (bar_or_skip opts index now_ns sec kept ≡ some b)
        full [] m h = elim m [ ]
        full (k ∷ ks) m h =
            let v =
              laws.sum_pos k.size (map (λ u. u.size) ks) (h.0, All-map _ (λ u. u.size) ks h.1) in
            (bar_of opts index now_ns sec k ks, unfold volume_of in ground (arith, v))

    In-second_loop :
        (index : List (String × ℕ)) (by_sec : List (ℕ × List (Trade F))) {sec : ℕ} (secs : List ℕ)
        {b : Bar F}
        → In sec secs
        → bar_or_skip opts index now_ns sec (kept_of opts by_sec sec) ≡ some b
        → In b (second_loop opts index now_ns by_sec secs).0
    unfolding second_loop
    In-second_loop index by_sec [] m e = elim m [ ]
    In-second_loop index by_sec {sec} (s ∷ secs) {b} (here q) e =
        let e' : bar_or_skip opts index now_ns s (kept_of opts by_sec s) ≡ some b =
          subst (λ n. bar_or_skip opts index now_ns n (kept_of opts by_sec n) ≡ some b) q e in
        rw e' (here refl)
    In-second_loop index by_sec (s ∷ secs) (there m) e =
        In-cons_some (bar_or_skip opts index now_ns s (kept_of opts by_sec s)) _
          (In-second_loop index by_sec secs m e)

    -- With `mad_k >= 1`, every second in which some trade passes the guards has its bar: the filter
    -- never costs the tape a second.
    pub build_agg_bars-covers :
        (consolidated : List (Trade F)) (t : Trade F)
        → In t consolidated
        → is_skipped opts t ≡ false
        → (b : Bar F) × In b (build_agg_bars opts now_ns consolidated).0
          × (b.ts_ns ≡ second_of t.ts_ns)
    unfolding build_agg_bars
    build_agg_bars-covers consolidated t m e =
        let st = bucket_loop opts consolidated ([], []) in
        let index = index_or opts.venues_index st.1 in
        let sec = second_of t.ts_ns in
        let raw = by_sec-select opts sec consolidated in
        let usable : is_in_second opts sec t ≡ true = rw (e, eq_refl sec) in
        let mine : In t (get_list sec st.0) =
          subst (In t) (sym raw) (In-select (is_in_second opts sec) consolidated m usable) in
        let sized : All (λ u. lt nought u.size ≡ true) (get_list sec st.0) =
          subst (All (λ u. lt nought u.size ≡ true)) (sym raw) (
            All-select _ (is_in_second opts sec) consolidated
              (λ u _ i. size_pos u (ground (arith, i)))) in
        let (b, some_b) = bucket index sec (get_list sec st.0) mine sized in
        (
          b,
          In-second_loop index st.0 (sorted_set (keys st.0))
              (In-sorted_set (keys st.0) (In-second_keys opts consolidated ([], []) m e)) some_b,
          sym (bar_or_skip-ts opts index now_ns sec _ b some_b),
        )
      where
        bucket :
            (index : List (String × ℕ)) (sec : ℕ) (raw : List (Trade F))
            → In t raw
            → All (λ u. lt nought u.size ≡ true) raw
            → (b : Bar F) × (bar_or_skip opts index now_ns sec
                  (robust_filter opts.mad_k opts.min_venues_for_filter raw).0
                ≡ some b)
        bucket index sec [] m h = elim m [ ]
        bucket index sec (u ∷ us) m h = bar_or_skip-some index sec u us h
