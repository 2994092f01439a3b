-- ===== src/Builds.antt =====
-- scripts/build_bars_1s.py: the bars of a symbol and a date from its stored trades. The trades that
-- `_collect_trades` finds, the configuration and the clock are arguments, and so is the f-string of the
-- correction's note; the files that are written are part of the result.
pub mod Covered
pub mod Stored
mod Tests
use Prim.Native.String.{String}
use crypto_data_aggregator.Prelude.{
  ℕ, ◌+◌, Bool, true, Option, none, some, List, [], ◌∷◌, ◌++◌, map, length, total_of, chain,
  if◌then◌else◌,
}
use crypto_data_aggregator.Prelude.Int.{ℤ}
use crypto_data_aggregator.Prelude.Order.{nat_order, text_order}
use crypto_data_aggregator.Prelude.Sorting.{sorted}
use crypto_data_aggregator.Prelude.Keyed.{sorted_by}
use crypto_data_aggregator.Prelude.Dict.{keys}
use crypto_data_aggregator.Float.{Float}
use crypto_data_aggregator.Trade.{Trade, Bar}
use crypto_data_aggregator.Symbols.{venue_bitmask_index}
use crypto_data_aggregator.Consolidated.Merge.{merge_trades}
use crypto_data_aggregator.Consolidated.Bars.{Options, Diagnostic, build_agg_bars, contains}
use crypto_data_aggregator.Aggregate.Venue.{bars_from_trades}
use crypto_data_aggregator.Sources.Registry.{adapters, spot_venues}
use crypto_data_aggregator.Corrections.{Correction}

-- The section `[aggregate]`, with the defaults for what it leaves out.
pub record AggregateConfig {ℓ} (F : Type ℓ) : Type ℓ where
  pub mad_k : Option F
  pub min_venues_for_filter : Option ℕ
  pub stale_recv_lag_ms : Option F

abbrev pub get_or_default {ℓ} : {A : Type ℓ} → Option A → A → A
get_or_default none d = d
get_or_default (some a) d = a

-- The clock's readings: for the bars of a venue, and for the consolidated ones.
pub record Clocks : Type 0 where
  pub venue_ns : String → ℕ
  pub agg_ns : ℕ

pub record BuildDiagnostics : Type 0 where
  pub contributing_venues : List String
  pub agg_bars : Option ℕ
  pub trades_dropped_by_filter : Option ℕ
  pub consolidated_trades : Option ℕ

-- The result, with what is written: a frame of bars for each venue that has some, the consolidated bars
-- if there are some, and the correction.
pub record Built {ℓ} (F : Type ℓ) : Type ℓ where
  pub per_venue_bar_total : ℕ
  pub agg_count : ℕ
  pub diagnostics : BuildDiagnostics
  pub venue_frames : List (String × List (Bar F))
  pub agg_bars : List (Bar F)
  pub correction : Correction

module _ {ℓ} {F : Type ℓ} where
  -- `_collect_trades`, from the rows of every file of a venue's day, in the order of the files' names.
  unfoldable pub collect_trades :
      List (String × List (List (Trade F))) → List (String × List (Trade F))
  collect_trades [] = []
  collect_trades ((venue, files) ∷ more) =
      let rows = sorted_by (λ r. r.ts_ns) (chain files) in
      let rest = collect_trades more in elim rows [ [] ↦ rest | r ∷ rs ↦ (venue, r ∷ rs) ∷ rest ]

  -- `{v: rows for v, rows in per_venue_trades.items() if v in SPOT_VENUES}`
  unfoldable pub spot_only : List (String × List (Trade F)) → List (String × List (Trade F))
  unfolding contains
  spot_only [] = []
  spot_only ((venue, rows) ∷ more) =
      if contains venue spot_venues then (venue, rows) ∷ spot_only more else spot_only more

  unfoldable pub bars_in : List (String × List (Bar F)) → ℕ
  bars_in [] = 0
  bars_in ((venue, bars) ∷ more) = length bars + bars_in more

  unfoldable pub dropped_in : List (Diagnostic F) → ℕ
  dropped_in diags = total_of (map (λ d. d.n_dropped) diags)

module _ {ℓ} {F : Type ℓ} ⦃fl : Float F⦄ where
  -- The first loop.
  unfoldable pub venue_frames_of :
      String → (String → ℕ) → List (String × List (Trade F)) → List (String × List (Bar F))
  venue_frames_of symbol venue_ns [] = []
  venue_frames_of symbol venue_ns ((venue, trades) ∷ more) =
      let bars = bars_from_trades symbol venue (venue_ns venue) trades in
      let rest = venue_frames_of symbol venue_ns more in
      elim bars [ [] ↦ rest | b ∷ bs ↦ (venue, b ∷ bs) ∷ rest ]

  -- The arguments of `build_agg_bars`.
  unfoldable pub options_of : String → AggregateConfig F → Options F
  options_of symbol cfg = record {
    symbol = symbol;
    venues_index = some (venue_bitmask_index (keys adapters));
    mad_k = get_or_default cfg.mad_k (fl.of_decimal 50 1);
    min_venues_for_filter = get_or_default cfg.min_venues_for_filter 3;
    excluded_venues = [];
    stale_recv_lag_ms = some (get_or_default cfg.stale_recv_lag_ms (fl.of_nat 5000));
    return_diagnostics = true;
  }

  -- The second half, which makes nothing of no spot trades.
  unfoldable pub agg_of :
      Options F → ℕ → List (String × List (Trade F)) → List (Bar F) × BuildDiagnostics
  unfolding dropped_in
  agg_of opts agg_ns [] = (
    [],
    record {
      contributing_venues = [];
      agg_bars = none;
      trades_dropped_by_filter = none;
      consolidated_trades = none;
    },
  )
  agg_of opts agg_ns (v ∷ spot) =
      let consolidated = merge_trades (v ∷ spot) in
      let (agg_bars, diags) = build_agg_bars opts agg_ns consolidated in
      (
        agg_bars,
        record {
          contributing_venues = sorted (keys (v ∷ spot));
          agg_bars = some (length agg_bars);
          trades_dropped_by_filter = some (dropped_in diags);
          consolidated_trades = some (length consolidated);
        },
      )

  module _ (noted : String → ℕ → ℕ → BuildDiagnostics → String) where
    -- `build_for` of trades; `none` is the early return, with nothing written.
    unfoldable pub build_trades :
        AggregateConfig F
        → Clocks
        → String
        → String
        → List (String × List (Trade F))
        → Option (Built F)
    unfolding venue_frames_of bars_in options_of agg_of spot_only
    build_trades cfg now symbol date [] = none
    build_trades cfg now symbol date (v ∷ per_venue) =
        let frames = venue_frames_of symbol now.venue_ns (v ∷ per_venue) in
        let total = bars_in frames in
        let (agg_bars, diagnostics) =
          agg_of (options_of symbol cfg) now.agg_ns (spot_only (v ∷ per_venue)) in
        let agg_count = length agg_bars in
        some (record {
          per_venue_bar_total = total;
          agg_count = agg_count;
          diagnostics = diagnostics;
          venue_frames = frames;
          agg_bars = agg_bars;
          correction = record {
            table_name = "bars_1s";
            kind = "backfill";
            severity = "info";
            symbol = some symbol;
            venue = some "agg";
            effective_from_ns = 0;
            effective_to_ns = 0;
            rows_affected = some (total + agg_count);
            note = some (noted date total agg_count diagnostics);
          };
        })

    unfoldable pub build_for :
        AggregateConfig F
        → Clocks
        → String
        → String
        → List (String × List (List (Trade F)))
        → Option (Built F)
    unfolding collect_trades build_trades
    build_for cfg now symbol date stored = build_trades cfg now symbol date (collect_trades stored)
