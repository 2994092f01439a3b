-- ===== src/Quality/Coverage.antt =====
-- `_completeness` and `_agg_coverage_of_union` of cryptodata/quality/report.py.
use Prim.Native.String.{String}
use crypto_data_aggregator.Prelude.{
  ℕ, ◌+◌, ◌-◌, ◌/◌, Bool, false, ◌||◌, Option, none, some, List, [], ◌∷◌, ◌++◌, map, length, select,
}
use crypto_data_aggregator.Prelude.Int.{ℤ, pos}
use crypto_data_aggregator.Prelude.Order.{nat_order, text_order, eq, maximum, minimum}
use crypto_data_aggregator.Prelude.Sorting.{sorted_set}
use crypto_data_aggregator.Float.{Float, float_order, nought, one}
use crypto_data_aggregator.Numerics.{Numerics}
use crypto_data_aggregator.Trade.{Bar}
use crypto_data_aggregator.Quality.Gaps.{gaps_of}

-- What `_completeness` returns.
pub record Completeness {ℓ} (F : Type ℓ) : Type ℓ where
  pub completeness_pct : F
  pub n_bars : ℕ
  pub expected_bars : ℕ
  pub max_gap_seconds : ℤ
  pub span_seconds : ℕ

-- `set((df["ts_ns"] // 1_000_000_000).tolist())`, as the list that the set is made of.
unfoldable pub seconds_of {ℓ} : {F : Type ℓ} → List (Bar F) → List ℕ
seconds_of bars = map (λ b. b.ts_ns / 1_000_000_000) bars

unfoldable pub is_second : ℕ → List ℕ → Bool
is_second s [] = false
is_second s (t ∷ ts) = eq s t || is_second s ts

unfoldable pub union_of {ℓ} : {F : Type ℓ} → List (String × List (Bar F)) → List ℕ
unfolding seconds_of
union_of [] = []
union_of ((v, bars) ∷ more) = seconds_of bars ++ union_of more

-- `len(agg_secs & union)`
unfoldable pub shared : List ℕ → List ℕ → ℕ
unfolding is_second
shared agg_secs union = length (select (λ s. is_second s agg_secs) union)

module _ {ℓ} {F : Type ℓ} ⦃fl : Float F⦄ ⦃nm : Numerics F⦄ where
  abbrev pub longest_gap : List F → ℤ
  longest_gap [] = pos 0
  longest_gap (g ∷ gs) = fl.truncate (maximum g gs)

  unfoldable pub completeness_of : List ℕ → Completeness F
  completeness_of [] = record {
    completeness_pct = nought;
    n_bars = 0;
    expected_bars = 0;
    max_gap_seconds = pos 0;
    span_seconds = 0;
  }
  completeness_of (t ∷ ts) =
      let n = length (t ∷ ts) in
      let span_s = (maximum t ts - minimum t ts) / 1_000_000_000 + 1 in
      record {
        completeness_pct =
            nm.round_to 4
              (fl.mul (fl.of_nat 100) (minimum one (fl.div (fl.of_nat n) (fl.of_nat span_s) ∷ [])));
        n_bars = n;
        expected_bars = span_s;
        max_gap_seconds = longest_gap (gaps_of (t ∷ ts));
        span_seconds = span_s;
      }

  -- The percentage of `union`, which is the set without repeats: `u ∷ us`.
  abbrev pub percent_of_union : List ℕ → List ℕ → Option F × ℕ
  percent_of_union agg_secs [] = (none, 0)
  percent_of_union agg_secs (u ∷ us) =
      let n = length (u ∷ us) in
      (
        some (
            nm.round_to 2 (
              fl.div (fl.mul (fl.of_nat 100) (fl.of_nat (shared agg_secs (u ∷ us))))
                (fl.of_nat n))),
        n,
      )

  unfoldable pub agg_coverage_of_union : List (Bar F) → List (String × List (Bar F)) → Option F × ℕ
  unfolding union_of seconds_of
  agg_coverage_of_union agg_bars per_venue_bars =
      percent_of_union (seconds_of agg_bars) (sorted_set (union_of per_venue_bars))
