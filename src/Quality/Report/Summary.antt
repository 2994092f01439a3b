-- ===== src/Quality/Report/Summary.antt =====
-- The summary of scorecards and what `write_daily_quality` persists, of cryptodata/quality/report.py.
use Prim.Native.String.{String}
use crypto_data_aggregator.Prelude.{
  ℕ, Bool, Option, none, some, List, [], ◌∷◌, map, length, select, total_of,
}
use crypto_data_aggregator.Prelude.Order.{nat_order, text_order, minimum}
use crypto_data_aggregator.Prelude.Sorting.{sorted_set}
use crypto_data_aggregator.Prelude.Groups.{group_loop, tally}
use crypto_data_aggregator.Float.{Float, float_order}
use crypto_data_aggregator.Numerics.{Numerics}
use crypto_data_aggregator.Consolidated.Bars.{contains}
use crypto_data_aggregator.Quality.Report.{Slice, ScoreCard, score_day}

-- What `quality_summary_from_rows` returns for at least one row.
pub record Summary {ℓ} (F : Type ℓ) : Type ℓ where
  pub slices : ℕ
  pub symbols : List String
  pub venues : List String
  pub dates : List String
  pub mean_score : F
  pub min_score : F
  pub grade_counts : List (String × ℕ)
  pub total_critical_issues : ℕ
  pub computed_at_ns : ℕ

-- (symbol, venue, date)
abbrev pub Combo : Type 0
Combo = String × (String × String)

-- `if names: ... in set(names)`, where no list and an empty one keep everything.
abbrev pub wanted : Option (List String) → String → Bool
wanted none s = Bool.true
wanted (some []) s = Bool.true
wanted (some (n ∷ names)) s = contains s (n ∷ names)

unfoldable pub selected : Option (List String) → Option (List String) → List Combo → List Combo
selected symbols dates combos =
    select (λ c. wanted dates c.1.1) (select (λ c. wanted symbols c.0) combos)

module _ {ℓ} {F : Type ℓ} ⦃fl : Float F⦄ ⦃nm : Numerics F⦄ where
  -- `none` stands for `{"slices": 0}`.
  unfoldable pub summary_from_rows : ℕ → List (ScoreCard F) → Option (Summary F)
  summary_from_rows now_ns [] = none
  summary_from_rows now_ns (r ∷ rows) =
      let scores = map (λ c. c.score) rows in
      some (record {
        slices = length (r ∷ rows);
        symbols = sorted_set (map (λ c. c.symbol) (r ∷ rows));
        venues = sorted_set (map (λ c. c.venue) (r ∷ rows));
        dates = sorted_set (map (λ c. c.date) (r ∷ rows));
        mean_score =
            nm.round_to 2 (fl.div (fl.sum (r.score ∷ scores)) (fl.of_nat (length (r ∷ rows))));
        min_score = nm.round_to 2 (minimum r.score scores);
        grade_counts = tally (map (λ c. c.grade) (r ∷ rows)) [];
        total_critical_issues = total_of (map (λ c. c.n_critical) (r ∷ rows));
        computed_at_ns = now_ns;
      })

-- What `write_daily_quality` persists: the rows for the table, a file of cards for each date, and the
-- summary. Without rows nothing is written.
pub record Persisted {ℓ} (F : Type ℓ) : Type ℓ where
  pub rows : List (ScoreCard F)
  pub by_date : List (String × List (ScoreCard F))
  pub summary : Option (Summary F)

module _ {ℓ} {F : Type ℓ} ⦃fl : Float F⦄ ⦃nm : Numerics F⦄ (slice_of : Combo → Slice F)
    (now_ns : ℕ) where
  unfoldable pub cards_of : List Combo → List (ScoreCard F)
  cards_of combos = map (λ c. score_day c.0 c.1.0 c.1.1 (slice_of c) now_ns) combos

  unfoldable pub write_daily_quality :
      Option (List String) → Option (List String) → List Combo → Persisted F
  unfolding selected cards_of summary_from_rows
  write_daily_quality symbols dates combos =
      let rows = cards_of (selected symbols dates combos) in
      record {
        rows = rows;
        by_date = group_loop (λ c. c.date) (λ c. c) rows [];
        summary = summary_from_rows now_ns rows;
      }
