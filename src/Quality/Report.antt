-- ===== src/Quality/Report.antt =====
-- cryptodata/quality/report.py: the scorecard of a slice. The answers of DuckDB are arguments, and so is
-- the clock.
pub mod Summary
pub mod Counts
use Prim.Native.String.{String}
use crypto_data_aggregator.Prelude.{
  ℕ, ◌+◌, ◌-◌, ◌/◌, ◌==◌, Bool, false, not, ◌||◌, Option, none, some, List, [], ◌∷◌, ◌++◌, map,
  length, select, total_of, chain, if◌then◌else◌,
}
use crypto_data_aggregator.Prelude.Int.{ℤ, pos}
use crypto_data_aggregator.Prelude.Order.{nat_order, text_order, eq, maximum, minimum}
use crypto_data_aggregator.Prelude.Sorting.{sorted_set}
use crypto_data_aggregator.Prelude.Dict.{get, put}
use crypto_data_aggregator.Prelude.Groups.{group_loop, tally, times_seen}
use crypto_data_aggregator.Float.{Float, float_order, nought, one}
use crypto_data_aggregator.Numerics.{Numerics}
use crypto_data_aggregator.Trade.{Bar}
use crypto_data_aggregator.Rows.{Trade, Quote}
use crypto_data_aggregator.Consolidated.Bars.{contains}
use crypto_data_aggregator.Quality.{
  Issue, Severity, info, minor, major, critical, ts_column, score_of,
}
use crypto_data_aggregator.Quality.Gaps.{gaps_of}
use crypto_data_aggregator.Prelude.Prefixes.{take}
use crypto_data_aggregator.Quality.Checks.{Frames, run_checks}
use crypto_data_aggregator.Quality.Coverage.{completeness_of, agg_coverage_of_union}

-- `severity.label`
unfoldable pub label : Severity → String
label info = "info"
label minor = "minor"
label major = "major"
label critical = "critical"

module _ {ℓ} {F : Type ℓ} where
  -- What `Issue.to_dict` gives.
  abbrev pub to_dict : Issue F → Issue F
  to_dict i = record i { sample = take 5 i.sample }

-- What DuckDB holds for a symbol and a date: the bars of each venue, the venues that have bars, and the
-- trades and quotes of the venue that is scored.
pub record Slice {ℓ} (F : Type ℓ) : Type ℓ where
  pub bars_of : String → List (Bar F)
  pub venues : List String
  pub trades : List (Trade F)
  pub quotes : List (Quote F)

pub record ScoreCard {ℓ} (F : Type ℓ) : Type ℓ where
  pub date : String
  pub symbol : String
  pub venue : String
  pub score : F
  pub grade : String
  pub score_basis : String
  pub score_base_pct : F
  pub agg_coverage_of_union_pct : Option F
  pub union_seconds : Option ℕ
  pub bars : ℕ
  pub expected_bars : ℕ
  pub completeness_pct : F
  pub max_gap_seconds : ℤ
  pub span_seconds : ℕ
  pub day_coverage_pct : F
  pub n_trades : ℕ
  pub n_quotes : ℕ
  pub n_issues : ℕ
  pub n_critical : ℕ
  pub severity_counts : List (String × ℕ)
  pub issues : List (Issue F)
  pub computed_at_ns : ℕ

module _ {ℓ} {F : Type ℓ} where
  -- The loop over the venues of "agg", from the dict so far.
  unfoldable pub load_venues :
      (String → List (Bar F))
      → List String
      → List (String × List (Bar F))
      → List (String × List (Bar F))
  load_venues bars_of [] d = d
  load_venues bars_of (v ∷ vs) d =
      load_venues bars_of vs (if eq v "agg" then d else put v (bars_of v) d)

  abbrev pub or_else_bars : List (Bar F) → List (Bar F) → List (Bar F)
  or_else_bars [] bars = bars
  or_else_bars (b ∷ agg) bars = b ∷ agg

module _ {ℓ} {F : Type ℓ} ⦃fl : Float F⦄ ⦃nm : Numerics F⦄ where
  abbrev pub base_of : Option F → F
  base_of none = fl.of_decimal 100 0
  base_of (some pct) = pct

  -- The card, from what the branches on the venue have set.
  unfoldable pub card_of :
      String
      → String
      → String
      → Slice F
      → ℕ
      → List (Issue F)
      → Option F
      → Option ℕ
      → String
      → ScoreCard F
  unfolding completeness_of label score_of
  card_of symbol venue date slice now_ns issues agg_cov_pct union_secs basis =
      let bars = slice.bars_of venue in
      let c = completeness_of (ts_column bars) in
      let base = base_of agg_cov_pct in
      let (score, grade) = score_of (nm.round_to 2) base issues in
      let sev_counts = tally (map (λ i. label i.severity) issues) [] in
      record {
        date = date;
        symbol = symbol;
        venue = venue;
        score = score;
        grade = grade;
        score_basis = basis;
        score_base_pct = nm.round_to 2 base;
        agg_coverage_of_union_pct = agg_cov_pct;
        union_seconds = union_secs;
        bars = c.n_bars;
        expected_bars = c.expected_bars;
        completeness_pct = c.completeness_pct;
        max_gap_seconds = c.max_gap_seconds;
        span_seconds = c.span_seconds;
        day_coverage_pct =
            if c.span_seconds == 0
            then nought
            else nm.round_to 2
                (fl.div (fl.mul (fl.of_nat 100) (fl.of_nat c.span_seconds)) (fl.of_nat 86_400));
        n_trades = length slice.trades;
        n_quotes = length slice.quotes;
        n_issues = length issues;
        n_critical = times_seen (get "critical" sev_counts);
        severity_counts = sev_counts;
        issues = map to_dict issues;
        computed_at_ns = now_ns;
      }

  -- `score_day` of a venue, and of "agg". `agg_bars` is `bars` if "agg" is among the venues.
  unfoldable pub score_venue : String → String → String → Slice F → ℕ → ScoreCard F
  score_venue symbol venue date slice now_ns =
      card_of symbol venue date slice now_ns
        (run_checks (record {
          bars = some (slice.bars_of venue);
          trades = some slice.trades;
          quotes = some slice.quotes;
          agg_bars = none;
          per_venue_bars = none;
        }))
        none none "clean_baseline"

  unfoldable pub score_agg : String → String → Slice F → ℕ → ScoreCard F
  unfolding load_venues agg_coverage_of_union
  score_agg symbol date slice now_ns =
      let bars = slice.bars_of "agg" in
      let agg_bars = if contains "agg" slice.venues then bars else [] in
      let per_venue = load_venues slice.bars_of slice.venues [] in
      let (agg_cov_pct, union_secs) =
        agg_coverage_of_union (or_else_bars agg_bars bars) per_venue in
      card_of symbol "agg" date slice now_ns
        (run_checks (record {
          bars = some bars;
          trades = some slice.trades;
          quotes = some slice.quotes;
          agg_bars = some agg_bars;
          per_venue_bars = some per_venue;
        }))
        agg_cov_pct (some union_secs) "coverage_of_contributing_venues"

  unfoldable pub score_day : String → String → String → Slice F → ℕ → ScoreCard F
  unfolding score_venue score_agg
  score_day symbol venue date slice now_ns =
      if eq venue "agg"
      then score_agg symbol date slice now_ns
      else score_venue symbol venue date slice now_ns
