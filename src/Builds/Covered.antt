-- ===== src/Builds/Covered.antt =====
-- The consolidated tape under the coverage of the report: the seconds of the venues' bars against those of
-- the bars of their merged trades.
use Prim.Native.String.{String}
use crypto_data_aggregator.Prelude.{
  ℕ, zero, suc, ◌/◌, ◌≡◌, refl, sym, ap, ◌∙◌, subst, Bool, true, false, Option, none, some, List,
  [], ◌∷◌, map, arith, length, select, All, All-append, All-map, All-of_In, In, In-map, In-of_All,
  here, there,
}
use crypto_data_aggregator.Prelude.Order.{◌≼◌, eq, eq_refl, nat_order}
use crypto_data_aggregator.Prelude.Sorting.{sorted_set, All-sorted_set}
use crypto_data_aggregator.Float.{Float, float_order, IsFloat, one}
use crypto_data_aggregator.Numerics.{Numerics}
use crypto_data_aggregator.Trade.{Trade, Bar, second_of}
use crypto_data_aggregator.Consolidated.Merge.{merge_trades, values}
use crypto_data_aggregator.Prelude.Within.{IsWithin}
use crypto_data_aggregator.Consolidated.Merge.Stable.{merge_trades-IsWithin}
use crypto_data_aggregator.Consolidated.Bars.{Options, is_skipped, build_agg_bars}
use crypto_data_aggregator.Consolidated.Bars.Coverage.{build_agg_bars-covers}
use crypto_data_aggregator.Aggregate.Venue.{bars_from_trades}
use crypto_data_aggregator.Aggregate.Venue.Origins.{bars_from_trades-times}
use crypto_data_aggregator.Quality.Coverage.{
  seconds_of, is_second, union_of, shared, percent_of_union, agg_coverage_of_union,
}
use crypto_data_aggregator.Builds.Stored.{
  Every, AreSpot, Stored, collect_trades-Every, collect_trades-AreSpot, spot_only_all,
}
use crypto_data_aggregator.Builds.{
  AggregateConfig, Clocks, BuildDiagnostics, Built, collect_trades, spot_only, venue_frames_of,
  options_of, agg_of, build_trades, build_for,
}

In-IsWithin {ℓ} : {A : Type ℓ} {a : A} {xs ys : List A} → IsWithin xs ys → In a xs → In a ys
In-IsWithin (IsWithin.nil ys) m = elim m [ ]
In-IsWithin (IsWithin.skip y w) m = there (In-IsWithin w m)
In-IsWithin (IsWithin.keep x w) (here e) = here e
In-IsWithin (IsWithin.keep x w) (there m) = there (In-IsWithin w m)

is_second_of : (s : ℕ) (ts : List ℕ) → In s ts → is_second s ts ≡ true
unfolding is_second
is_second_of s [] m = elim m [ ]
is_second_of s (t ∷ ts) (here e) = rw (ap (eq s) (sym e) ∙ eq_refl s) refl
is_second_of s (t ∷ ts) (there m) = ground (arith, is_second_of s ts m)

select_all {ℓ} :
    {A : Type ℓ} (p : A → Bool) (xs : List A) → All (λ x. p x ≡ true) xs → select p xs ≡ xs
select_all p [] h = refl
select_all p (x ∷ xs) h = rw h.0 (ap (◌∷◌ x) (select_all p xs h.1))

module _ {ℓ} {F : Type ℓ} where
  union_of-All {κ} :
      (P : ℕ → Type κ) (frames : List (String × List (Bar F)))
      → All (λ f. All (λ b. P (b.ts_ns / 1_000_000_000)) f.1) frames
      → All P (union_of frames)
  unfolding union_of seconds_of
  union_of-All P [] h = tt
  union_of-All P ((venue, bars) ∷ more) h =
      All-append P (map (λ b. b.ts_ns / 1_000_000_000) bars) (union_of more)
        (All-map P (λ b. b.ts_ns / 1_000_000_000) bars h.0) (union_of-All P more h.1)

module _ {ℓ} {F : Type ℓ} ⦃fl : Float F⦄ where
  venue_frames_of-times {κ} :
      (P : ℕ → Type κ) (symbol : String) (venue_ns : String → ℕ)
      (per_venue : List (String × List (Trade F)))
      → Every (λ t. P (second_of t.ts_ns)) per_venue
      → All (λ f. All (λ b. P b.ts_ns) f.1) (venue_frames_of symbol venue_ns per_venue)
  unfolding venue_frames_of
  venue_frames_of-times P symbol venue_ns [] h = tt
  venue_frames_of-times P symbol venue_ns ((venue, rows) ∷ more) h =
      framed _ (bars_from_trades symbol venue (venue_ns venue) rows)
        (bars_from_trades-times symbol venue (venue_ns venue) P rows h.0)
        (venue_frames_of-times P symbol venue_ns more h.1)
    where
      framed :
          (rest : List (String × List (Bar F))) (bars : List (Bar F))
          → All (λ b. P b.ts_ns) bars
          → All (λ f. All (λ b. P b.ts_ns) f.1) rest
          → All
              (λ f. All (λ b. P b.ts_ns) f.1)
              (elim bars [ [] ↦ rest | b ∷ bs ↦ (venue, b ∷ bs) ∷ rest ])
      framed rest [] k l = l
      framed rest (b ∷ bs) k l = (k, l)

  second_of-agg :
      (b : Bar F) (bars : List (Bar F)) (n : ℕ)
      → In b bars
      → b.ts_ns ≡ n
      → is_second (n / 1_000_000_000) (seconds_of bars) ≡ true
  unfolding seconds_of
  second_of-agg b bars n m e =
      subst (λ k. is_second (k / 1_000_000_000) (seconds_of bars) ≡ true) e
        (is_second_of _ _ (In-map (λ c. c.ts_ns / 1_000_000_000) bars m))

  Every-within {κ} :
      (P : Trade F → Type κ) (opts : Options F) (merged : List (Trade F))
      (per_venue : List (String × List (Trade F)))
      → ((t : Trade F) → In t merged → is_skipped opts t ≡ false → P t)
      → All (λ rows. IsWithin rows merged) (values per_venue)
      → Every (λ t. is_skipped opts t ≡ false) per_venue
      → Every P per_venue
  Every-within P opts merged [] f w h = tt
  Every-within P opts merged ((venue, rows) ∷ more) f w h = (
    All-of_In P rows (λ t m. f t (In-IsWithin w.0 m) (In-of_All _ rows h.0 m)),
    Every-within P opts merged more f w.1 h.1,
  )

  -- The seconds of the venues' frames are among those of the bars of the merged trades.
  frames_covered :
      (laws : IsFloat F) (symbol : String) (cfg : AggregateConfig F)
      → one ≼ (options_of symbol cfg).mad_k
      → (venue_ns : String → ℕ) (agg_ns : ℕ) (per_venue : List (String × List (Trade F)))
      → Every (λ t. is_skipped (options_of symbol cfg) t ≡ false) per_venue
      → let agg_bars = (build_agg_bars (options_of symbol cfg) agg_ns (merge_trades per_venue)).0 in
        All
          (λ s. is_second s (seconds_of agg_bars) ≡ true)
          (union_of (venue_frames_of symbol venue_ns per_venue))
  frames_covered laws symbol cfg k venue_ns agg_ns per_venue h =
      let opts = options_of symbol cfg in
      let merged = merge_trades per_venue in
      let agg_bars = (build_agg_bars opts agg_ns merged).0 in
      let Seen = λ (n : ℕ). is_second (n / 1_000_000_000) (seconds_of agg_bars) ≡ true in
      union_of-All (λ s. is_second s (seconds_of agg_bars) ≡ true) _
        (venue_frames_of-times Seen symbol venue_ns per_venue (
          Every-within (λ t. Seen (second_of t.ts_ns)) opts merged per_venue
            (λ t m e.
              let (b, at, q) = build_agg_bars-covers opts agg_ns laws k merged t m e in
              second_of-agg b agg_bars (second_of t.ts_ns) at q)
            (merge_trades-IsWithin per_venue) h))

  -- Where the seconds of the venues are all seconds of the tape.
  shared_all :
      (agg_bars : List (Bar F)) (frames : List (String × List (Bar F)))
      → All (λ s. is_second s (seconds_of agg_bars) ≡ true) (union_of frames)
      → shared (seconds_of agg_bars) (sorted_set (union_of frames))
        ≡ length (sorted_set (union_of frames))
  unfolding shared
  shared_all agg_bars frames h =
      ap length (select_all _ (sorted_set (union_of frames)) (All-sorted_set _ (union_of frames) h))

module _ {ℓ} {F : Type ℓ} ⦃fl : Float F⦄ ⦃nm : Numerics F⦄ where
  -- The whole of a union of `n` seconds.
  abbrev pub full_marks : ℕ → Option F × ℕ
  full_marks zero = (none, 0)
  full_marks (suc n) = (
    some (nm.round_to 2 (fl.div (fl.mul (fl.of_nat 100) (fl.of_nat (suc n))) (fl.of_nat (suc n)))),
    suc n,
  )

  percent_of_union-full :
      (agg_secs union : List ℕ)
      → shared agg_secs union ≡ length union
      → percent_of_union agg_secs union ≡ full_marks (length union)
  percent_of_union-full agg_secs [] h = refl
  percent_of_union-full agg_secs (u ∷ us) h = rw h refl

  -- If every stored trade is from a spot venue and passes the guards, and `mad_k >= 1`, then the tape that
  -- `build_for` makes has a bar in every second in which one of the venues' frames that it makes has one:
  -- the report's coverage of the union is its number of seconds over itself.
  pub build_for-covers :
      (laws : IsFloat F) (noted : String → ℕ → ℕ → BuildDiagnostics → String)
      (cfg : AggregateConfig F) (now : Clocks) (symbol date : String)
      (stored : List (String × List (List (Trade F)))) (built : Built F)
      → one ≼ (options_of symbol cfg).mad_k
      → AreSpot stored
      → Stored (λ t. is_skipped (options_of symbol cfg) t ≡ false) stored
      → build_for noted cfg now symbol date stored ≡ some built
      → agg_coverage_of_union built.agg_bars built.venue_frames
        ≡ full_marks (length (sorted_set (union_of built.venue_frames)))
  unfolding build_for
  build_for-covers laws noted cfg now symbol date stored built k spot usable e =
      of_trades (collect_trades stored) (collect_trades-AreSpot stored spot)
        (collect_trades-Every _ stored usable) e
    where
      covers :
          (v : String × List (Trade F)) (more : List (String × List (Trade F)))
          → AreSpot (v ∷ more)
          → Every (λ t. is_skipped (options_of symbol cfg) t ≡ false) (v ∷ more)
          → let agg_bars = (agg_of (options_of symbol cfg) now.agg_ns (spot_only (v ∷ more))).0 in
            let frames = venue_frames_of symbol now.venue_ns (v ∷ more) in
            agg_coverage_of_union agg_bars frames
            ≡ full_marks (length (sorted_set (union_of frames)))
      covers v more s h =
          unfold agg_of agg_coverage_of_union in
          rw (spot_only_all (v ∷ more) s) (
            percent_of_union-full _ _ (
              shared_all _ (venue_frames_of symbol now.venue_ns (v ∷ more))
                (frames_covered laws symbol cfg k now.venue_ns now.agg_ns (v ∷ more) h)))

      of_trades :
          (per_venue : List (String × List (Trade F)))
          → AreSpot per_venue
          → Every (λ t. is_skipped (options_of symbol cfg) t ≡ false) per_venue
          → build_trades noted cfg now symbol date per_venue ≡ some built
          → agg_coverage_of_union built.agg_bars built.venue_frames
            ≡ full_marks (length (sorted_set (union_of built.venue_frames)))
      of_trades [] s h q = unfold build_trades in absurd (ground (arith, q))
      of_trades (v ∷ more) s h q =
          unfold build_trades in
          subst
            (λ (o : Option (Built F)). elim o [
              | none ↦ Unit
              | some b ↦
                  agg_coverage_of_union b.agg_bars b.venue_frames
                  ≡ full_marks (length (sorted_set (union_of b.venue_frames)))
            ])
            q (covers v more s h)
