-- ===== src/Quality/Gaps.antt =====
-- `check_bar_gaps` and `check_flatline` of cryptodata/quality/checks.py, over a list of bars. The
-- order in which pandas puts bars of equal times is open: `sort_values` is a parameter.
pub mod Runs
use Prim.Native.String.{String}
use crypto_data_aggregator.Prelude.{
  ℕ, zero, suc, ◌+◌, ◌-◌, ◌==◌, Bool, true, not, List, [], ◌∷◌, ◌++◌, map, ltb, leb, length, select,
  if◌then◌else◌,
}
use crypto_data_aggregator.Prelude.Order.{nat_order, gt, eq, maximum}
use crypto_data_aggregator.Prelude.Sorting.{sorted}
use crypto_data_aggregator.Prelude.Keyed.{sorted_by}
use crypto_data_aggregator.Float.{Float, float_order}
use crypto_data_aggregator.Numerics.{Numerics}
use crypto_data_aggregator.Trade.{Bar}
use crypto_data_aggregator.Prelude.Prefixes.{take}
use crypto_data_aggregator.Consolidated.Median.{median}
use crypto_data_aggregator.Quality.{Issue, minor, major, ts_column}

-- The keyword arguments of `check_bar_gaps`.
pub record GapLimits {ℓ} (F : Type ℓ) : Type ℓ where
  pub warn_gap_s : ℕ
  pub major_gap_s : ℕ
  pub rel_warn_k : F
  pub rel_major_k : F

abbrev pub default_limits {ℓ} : {F : Type ℓ} ⦃fl : Float F⦄ → GapLimits F
default_limits ⦃fl⦄ = record {
  warn_gap_s = 60;
  major_gap_s = 600;
  rel_warn_k = fl.of_decimal 30 0;
  rel_major_k = fl.of_decimal 120 0;
}

-- `np.diff(ts)` of times that ascend.
unfoldable pub diffs : List ℕ → List ℕ
diffs [] = []
diffs (a ∷ []) = []
diffs (a ∷ b ∷ ts) = (b - a) ∷ diffs (b ∷ ts)

module _ {ℓ} {A : Type ℓ} where
  -- `xs[::-1]`
  abbrev pub backwards : List A → List A
  backwards [] = []
  backwards (x ∷ xs) = backwards xs ++ (x ∷ [])

module _ {ℓ} {F : Type ℓ} ⦃fl : Float F⦄ ⦃nm : Numerics F⦄ where
  unfoldable pub gaps_of : List ℕ → List F
  unfolding diffs
  gaps_of ts = map (λ d. fl.div (fl.of_nat d) (fl.of_nat 1_000_000_000)) (diffs (sorted ts))

  abbrev pub reach : F → List F → ℕ
  reach th gaps = length (select (λ g. float_order.le th g) gaps)

  -- From `real` on, which is not empty: `r ∷ rs`.
  unfoldable pub gap_issues : GapLimits F → F → F → List F → List (Issue F)
  gap_issues limits median_gap r rs =
      let warn_th =
        maximum (fl.of_nat limits.warn_gap_s) (fl.mul limits.rel_warn_k median_gap ∷ []) in
      let major_th =
        maximum (fl.of_nat limits.major_gap_s) (fl.mul limits.rel_major_k median_gap ∷ []) in
      let n_warn = reach warn_th (r ∷ rs) in
      let n_major = reach major_th (r ∷ rs) in
      if n_warn == 0
      then []
      else record {
        check = "bar.gaps";
        severity = if n_major == 0 then minor else major;
        count = n_warn;
        detail = nm.joined (
            nm.digits n_warn
            ∷ " anomalous gap(s) between 1s bars (median gap "
            ∷ nm.places 1 median_gap
            ∷ "s, longest "
            ∷ nm.places 0 (maximum r rs)
            ∷ "s; "
            ∷ nm.digits n_major
            ∷ " >= "
            ∷ nm.places 0 major_th
            ∷ "s)"
            ∷ []);
        sample = map (nm.round_to 1) (take 5 (backwards (sorted (r ∷ rs))));
      }
        ∷ []

  -- `if real.size == 0: return`
  unfoldable pub real_gap_issues : GapLimits F → F → List F → List (Issue F)
  unfolding gap_issues
  real_gap_issues limits median_gap [] = []
  real_gap_issues limits median_gap (r ∷ rs) = gap_issues limits median_gap r rs

  -- From `gaps_s` on, which is empty exactly for fewer than two bars.
  unfoldable pub check_gaps : GapLimits F → List F → List (Issue F)
  unfolding real_gap_issues
  check_gaps limits [] = []
  check_gaps limits (g ∷ gs) =
      real_gap_issues limits (median g gs) (select (λ x. gt x (fl.of_decimal 15 1)) (g ∷ gs))

  unfoldable pub check_bar_gaps : GapLimits F → List (Bar F) → List (Issue F)
  unfolding gaps_of check_gaps
  check_bar_gaps limits bars =
      if ltb (length bars) 2 then [] else check_gaps limits (gaps_of (ts_column bars))

module _ {ℓ} {F : Type ℓ} ⦃fl : Float F⦄ where
  -- `np.cumsum(change)` after the sum `c` and the close `x`: a change adds one.
  unfoldable pub run_ids_from : ℕ → F → List F → List ℕ
  run_ids_from c x [] = []
  run_ids_from c x (y ∷ ys) = let c' = if eq y x then c else c + 1 in c' ∷ run_ids_from c' y ys

  -- `change` is True at the first close.
  unfoldable pub run_ids : List F → List ℕ
  unfolding run_ids_from
  run_ids [] = []
  run_ids (x ∷ xs) = 1 ∷ run_ids_from 1 x xs

-- How often a number stands in a list.
abbrev pub count : ℕ → List ℕ → ℕ
count v [] = 0
count v (n ∷ ns) = if n == v then suc (count v ns) else count v ns

-- `counts` for 0, ..., n of `np.bincount`, the last first.
unfoldable pub bins : ℕ → List ℕ → List ℕ
bins zero ids = []
bins (suc n) ids = count (suc n) ids ∷ bins n ids

-- `np.bincount(ids).max()`: over the numbers up to the largest. The largest of the counts does not
-- depend on their order.
unfoldable pub largest_bin : List ℕ → ℕ
unfolding bins
largest_bin ids = maximum (count 0 ids) (bins (maximum 0 ids) ids)

module _ {ℓ} {F : Type ℓ} ⦃fl : Float F⦄ ⦃nm : Numerics F⦄ where
  unfoldable pub flatline_issue : ℕ → List F → List (Issue F)
  unfolding run_ids largest_bin
  flatline_issue min_run close =
      let longest = largest_bin (run_ids close) in
      if leb min_run longest
      then record {
        check = "bar.flatline";
        severity = minor;
        count = longest;
        detail = nm.joined (
            "longest run of identical consecutive closes is "
            ∷ nm.digits longest
            ∷ " bars (>= "
            ∷ nm.digits min_run
            ∷ ")"
            ∷ []);
        sample = [];
      }
        ∷ []
      else []

  abbrev pub close_column : List (Bar F) → List F
  close_column bars = map (λ b. b.close) bars

  -- A list that is empty has been passed over unless `min_run` is 0.
  unfoldable pub nonempty_flatline : ℕ → List F → List (Issue F)
  unfolding flatline_issue
  nonempty_flatline min_run [] = []
  nonempty_flatline min_run (x ∷ xs) = flatline_issue min_run (x ∷ xs)

  unfoldable pub check_flatline : ℕ → List (Bar F) → List (Issue F)
  unfolding nonempty_flatline
  check_flatline min_run bars =
      if ltb (length bars) min_run
      then []
      else nonempty_flatline min_run (close_column (nm.sort_values bars))
