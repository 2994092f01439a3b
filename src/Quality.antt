-- ===== src/Quality.antt =====
-- cryptodata/quality/: the checks of checks.py over bars, and the score of report.py. A data frame of
-- bars is a list of bars.
pub mod Tape
pub mod Quotes
mod Issues
pub mod Gaps
pub mod Prints
pub mod Venues
pub mod Checks
pub mod Coverage
pub mod Report
pub mod Grades
mod Tests
use Prim.Native.String.{String}
use crypto_data_aggregator.Prelude.{
  ℕ, ◌+◌, ◌%◌, Bool, true, false, not, ◌||◌, List, [], ◌∷◌, ◌++◌, ltb, ◌==◌, length, select,
  if◌then◌else◌,
}
use crypto_data_aggregator.Prelude.Order.{lt, maximum, minimum}
use crypto_data_aggregator.Float.{Float, float_order, nought}
use crypto_data_aggregator.Trade.{Bar}

pub data Severity : Type 0 where
  info : Severity
  minor : Severity
  major : Severity
  critical : Severity

pub record Issue {ℓ} (F : Type ℓ) : Type ℓ where
  pub check : String
  pub severity : Severity
  pub count : ℕ
  pub detail : String
  pub sample : List F

-- `if n: yield Issue(...)`
unfoldable pub issue_if {ℓ} : {F : Type ℓ} → ℕ → String → Severity → String → List (Issue F)
issue_if n check severity detail =
    if n == 0
    then []
    else record { check = check; severity = severity; count = n; detail = detail; sample = [] } ∷ []

-- `np.diff(ts)`, tested: how many neighbours satisfy the test.
unfoldable pub neighbours {ℓ} : {A : Type ℓ} → (A → A → Bool) → List A → ℕ
neighbours p [] = 0
neighbours p (a ∷ []) = 0
neighbours p (a ∷ b ∷ ts) = let rest = neighbours p (b ∷ ts) in if p a b then rest + 1 else rest

abbrev pub is_off_grid : ℕ → Bool
is_off_grid t = not (t % 1_000_000_000 == 0)

-- `check_bar_timestamps` on the column `ts_ns`.
unfoldable pub check_timestamps {ℓ} : {F : Type ℓ} → List ℕ → List (Issue F)
unfolding issue_if neighbours
check_timestamps ts =
    if ltb (length ts) 2
    then []
    else issue_if (neighbours (λ a b. ltb b a) ts) "bar.timestamps_out_of_order" major
        "bar ts_ns not monotonically increasing"
      ++ issue_if (neighbours (λ a b. a == b) ts) "bar.duplicate_timestamps" major
          "two bars share the same ts_ns"
      ++ issue_if (length (select is_off_grid ts)) "bar.timestamp_off_second_grid" minor
          "bar ts_ns not aligned to a whole second"

abbrev pub ts_column {ℓ} : {F : Type ℓ} → List (Bar F) → List ℕ
ts_column [] = []
ts_column (b ∷ bars) = b.ts_ns ∷ ts_column bars

abbrev pub check_bar_timestamps {ℓ} : {F : Type ℓ} → List (Bar F) → List (Issue F)
check_bar_timestamps bars = check_timestamps (ts_column bars)

module _ {ℓ} {F : Type ℓ} ⦃fl : Float F⦄ where
  -- `~hi_ok`, `~lo_ok`, `~hl_ok` and the other row tests of `check_bar_ohlc_invariants`.
  unfoldable pub is_high_below_body : Bar F → Bool
  is_high_below_body b = lt b.high (fl.sub (maximum b.open_px (b.close ∷ [])) (fl.of_decimal 1 9))

  unfoldable pub is_low_above_body : Bar F → Bool
  is_low_above_body b = lt (fl.add (minimum b.open_px (b.close ∷ [])) (fl.of_decimal 1 9)) b.low

  unfoldable pub is_high_below_low : Bar F → Bool
  is_high_below_low b = lt b.high (fl.sub b.low (fl.of_decimal 1 9))

  unfoldable pub is_negative_volume : Bar F → Bool
  is_negative_volume b = lt b.volume nought

  unfoldable pub is_vwap_outside : Bar F → Bool
  is_vwap_outside b =
      lt b.vwap (fl.sub b.low (fl.of_decimal 1 6)) || lt (fl.add b.high (fl.of_decimal 1 6)) b.vwap

  unfoldable pub is_nonpositive_price : Bar F → Bool
  is_nonpositive_price b =
      float_order.le b.open_px nought
      || float_order.le b.high nought
      || float_order.le b.low nought
      || float_order.le b.close nought

  abbrev pub rows_with : (Bar F → Bool) → List (Bar F) → ℕ
  rows_with p bars = length (select p bars)

  unfoldable pub check_bar_ohlc_invariants : List (Bar F) → List (Issue F)
  unfolding is_high_below_body is_low_above_body is_high_below_low is_negative_volume
      is_vwap_outside is_nonpositive_price
  check_bar_ohlc_invariants bars =
      issue_if (rows_with is_high_below_body bars) "bar.high_below_body" major
        "high < max(open, close) — impossible OHLC"
      ++ issue_if (rows_with is_low_above_body bars) "bar.low_above_body" major
          "low > min(open, close) — impossible OHLC"
      ++ issue_if (rows_with is_high_below_low bars) "bar.high_below_low" critical
          "high < low — impossible OHLC"
      ++ issue_if (rows_with is_negative_volume bars) "bar.negative_volume" critical "volume < 0"
      ++ issue_if (rows_with is_vwap_outside bars) "bar.vwap_outside_hl" major
          "vwap outside [low, high] — bad weighting or corrupt bar"
      ++ issue_if (rows_with is_nonpositive_price bars) "bar.nonpositive_price" critical
          "price <= 0 in a bar"

module _ {ℓ} {F : Type ℓ} ⦃fl : Float F⦄ where
  -- `_ISSUE_WEIGHT`
  unfoldable pub weight : Severity → F
  weight info = fl.of_decimal 0 0
  weight minor = fl.of_decimal 2 0
  weight major = fl.of_decimal 10 0
  weight critical = fl.of_decimal 30 0

  unfoldable pub grade_for : F → String
  grade_for score =
      if float_order.le (fl.of_nat 95) score
      then "A"
      else if float_order.le (fl.of_nat 85) score
      then "B"
      else if float_order.le (fl.of_nat 70) score
      then "C"
      else if float_order.le (fl.of_nat 50) score
      then "D"
      else "F"

  -- `for iss in issues: score -= ...`
  unfoldable pub deduct : F → List (Issue F) → F
  unfolding weight
  deduct score [] = score
  deduct score (iss ∷ issues) = deduct (fl.sub score (weight iss.severity)) issues

  -- `max(0.0, min(100.0, score))`
  unfoldable pub clamp : F → F
  clamp score = maximum nought (minimum (fl.of_decimal 100 0) (score ∷ []) ∷ [])

  -- `_score`; `round_2` is `round(_, 2)`.
  unfoldable pub score_of : (F → F) → F → List (Issue F) → F × String
  unfolding deduct clamp grade_for
  score_of round_2 base issues =
      let score = clamp (deduct base issues) in (round_2 score, grade_for score)
