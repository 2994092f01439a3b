-- ===== src/Quality/Venues.antt =====
-- The cross-venue checks of cryptodata/quality/checks.py, over the bars of each venue. A series indexed
-- by time is an association list; the times of one frame are distinct, as `pd.concat` demands.
use Prim.Native.String.{String}
use crypto_data_aggregator.Prelude.{
  ℕ, ◌+◌, ◌==◌, Bool, ◌||◌, Option, none, some, List, [], ◌∷◌, ◌++◌, map, ltb, length, select,
  if◌then◌else◌,
}
use crypto_data_aggregator.Prelude.Order.{nat_order, text_order, lt, gt, eq, maximum, minimum}
use crypto_data_aggregator.Prelude.Sorting.{sorted_set}
use crypto_data_aggregator.Prelude.Dict.{get, put, keys}
use crypto_data_aggregator.Float.{Float, float_order, nought, mean}
use crypto_data_aggregator.Numerics.{Numerics}
use crypto_data_aggregator.Trade.{Bar}
use crypto_data_aggregator.Quality.{Issue, minor, major, issue_if}

abbrev pub Series {ℓ} : Type ℓ → Type ℓ
Series F = List (ℕ × F)

module _ {ℓ} {F : Type ℓ} where
  -- `df.set_index("ts_ns")["close"]`
  unfoldable pub closes_by_time : List (Bar F) → Series F
  closes_by_time bars = map (λ b. (b.ts_ns, b.close)) bars

  abbrev pub pick_from : (F → F → F) → F → Option F → F
  pick_from pick x none = x
  pick_from pick x (some y) = pick y x

  -- `pd.concat([lo, s], axis=1).min(axis=1)`, with the pick of two for `min`: an outer join that passes
  -- over absent values.
  unfoldable pub join : (F → F → F) → Series F → Series F → Series F
  join pick lo [] = lo
  join pick lo ((t, x) ∷ s) = join pick (put t (pick_from pick x (get t lo)) lo) s

  abbrev pub join_or_first : (F → F → F) → Option (Series F) → Series F → Series F
  join_or_first pick none s = s
  join_or_first pick (some lo) s = join pick lo s

  -- The loop over `per_venue.values()`, for one of the two extremes.
  unfoldable pub extreme :
      (F → F → F) → Option (Series F) → List (String × List (Bar F)) → Option (Series F)
  unfolding closes_by_time join
  extreme pick lo [] = lo
  extreme pick lo ((v, []) ∷ more) = extreme pick lo more
  extreme pick lo ((v, b ∷ bars) ∷ more) =
      extreme pick (some (join_or_first pick lo (closes_by_time (b ∷ bars)))) more

module _ {ℓ} {F : Type ℓ} ⦃fl : Float F⦄ where
  abbrev pub lesser : F → F → F
  lesser y x = minimum y (x ∷ [])

  abbrev pub greater : F → F → F
  greater y x = maximum y (x ∷ [])

  -- `x.abs() * 1e-6 + 1e-9`
  abbrev pub tolerance : F → F
  tolerance x = fl.add (fl.mul (fl.magnitude x) (fl.of_decimal 1 6)) (fl.of_decimal 1 9)

  unfoldable pub is_breach : F → F → F → Bool
  is_breach low high a = lt a (fl.sub low (tolerance low)) || gt a (fl.add high (tolerance high))

  abbrev pub breach_at : Option F → Option F → F → Bool
  breach_at (some low) (some high) a = is_breach low high a
  breach_at _ _ a = Bool.false

  -- `breach` over the times of `agg` that some venue has too.
  unfoldable pub breaches : Series F → Series F → Series F → ℕ
  unfolding is_breach
  breaches lo hi [] = 0
  breaches lo hi ((t, a) ∷ agg) =
      let rest = breaches lo hi agg in if breach_at (get t lo) (get t hi) a then rest + 1 else rest

  abbrev pub range_issue : Option (Series F) → Option (Series F) → Series F → List (Issue F)
  range_issue (some lo) (some hi) agg =
      issue_if (breaches lo hi agg) "agg.outside_venue_range" major
        "consolidated close fell outside [min, max] of contributing venue closes"
  range_issue _ _ agg = []

  unfoldable pub check_agg_within_venue_range :
      List (Bar F) → List (String × List (Bar F)) → List (Issue F)
  unfolding breaches extreme
  check_agg_within_venue_range agg_bars per_venue =
      if length agg_bars == 0
      then []
      else if ltb (length per_venue) 2
      then []
      else range_issue (extreme lesser none per_venue) (extreme greater none per_venue)
          (closes_by_time agg_bars)

  -- The series of the first loop of `check_cross_venue_dispersion`.
  unfoldable pub venue_series : List (String × List (Bar F)) → List (Series F)
  unfolding closes_by_time
  venue_series [] = []
  venue_series ((v, []) ∷ more) = venue_series more
  venue_series ((v, b ∷ bars) ∷ more) =
      if eq v "agg" then venue_series more else closes_by_time (b ∷ bars) ∷ venue_series more

  -- A row of `wide`: the closes at a time.
  unfoldable pub row_at : ℕ → List (Series F) → List F
  row_at t [] = []
  row_at t (s ∷ series) = elim (get t s) [ none ↦ row_at t series | some x ↦ x ∷ row_at t series ]

  unfoldable pub all_times : List (Series F) → List ℕ
  all_times [] = []
  all_times (s ∷ series) = keys s ++ all_times series

  -- `disp_bps` of a row that is not empty; a middle of 0 makes it NaN.
  unfoldable pub dispersion : F → List F → Option F
  dispersion x xs =
      let low = minimum x xs in
      let high = maximum x xs in
      let mid = mean low high in
      if eq mid nought
      then none
      else some (fl.mul (fl.div (fl.sub high low) mid) (fl.of_nat 10_000))

  abbrev pub cons_dispersion : List F → List F → List F
  cons_dispersion [] rest = rest
  cons_dispersion (x ∷ xs) rest = elim (dispersion x xs) [ none ↦ rest | some d ↦ d ∷ rest ]

  -- The column `disp_bps` without its NaNs, over the rows at the given times.
  unfoldable pub dispersions : List (Series F) → List ℕ → List F
  unfolding row_at dispersion
  dispersions series [] = []
  dispersions series (t ∷ ts) = cons_dispersion (row_at t series) (dispersions series ts)

  module _ ⦃nm : Numerics F⦄ where
    -- `np.nanpercentile(disp_bps, 99) if disp_bps.notna().any() else 0.0`
    abbrev pub p99_of : List F → F
    p99_of [] = nought
    p99_of (x ∷ xs) = nm.percentile_99 (x ∷ xs)

    unfoldable pub dispersion_issue : F → List F → List (Issue F)
    dispersion_issue warn_bps disp_bps =
        let p99 = p99_of disp_bps in
        let n_wide = length (select (λ d. gt d warn_bps) disp_bps) in
        issue_if n_wide "xvenue.dispersion" (if lt p99 (fl.of_nat 200) then minor else major) (
          nm.joined (
            nm.digits n_wide
            ∷ " seconds with cross-venue close dispersion > "
            ∷ nm.places 0 warn_bps
            ∷ " bps (p99 "
            ∷ nm.places 0 p99
            ∷ " bps)"
            ∷ []))

    unfoldable pub check_cross_venue_dispersion : F → List (String × List (Bar F)) → List (Issue F)
    unfolding venue_series all_times dispersions dispersion_issue
    check_cross_venue_dispersion warn_bps per_venue =
        let series = venue_series per_venue in
        if ltb (length series) 2
        then []
        else dispersion_issue warn_bps (dispersions series (sorted_set (all_times series)))
