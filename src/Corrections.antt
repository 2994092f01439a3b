-- ===== src/Corrections.antt =====
-- cryptodata/core/corrections.py: the log of corrections and the point-in-time symbol map. The tables of
-- cryptodata/storage/duckdb_views.py are lists of their rows in the order of insertion, and each statement
-- is what its SQL says of them; the clock is an argument. A statement that DuckDB refuses raises
-- `constraint_error`. `parts` stands for `canonical.replace("-PERP", "").split("-")`, and `is_perp` for
-- `canonical.endswith("-PERP")`.
mod Seeds
pub mod Mappings
mod Tests
use Prim.Native.String.{String}
use crypto_data_aggregator.Prelude.{
  ℕ, Bool, true, false, not, ◌&&◌, ◌||◌, Option, none, some, List, [], ◌∷◌, ◌++◌, leb, ltb, ◌==◌,
  length, map, select, if◌then◌else◌,
}
use crypto_data_aggregator.Prelude.Order.{Order, text_order, nat_order, pair_order, eq}
use crypto_data_aggregator.Prelude.Keyed.{sorted_by}
use crypto_data_aggregator.Python.{Result, ok, raise, value_error, constraint_error}
use crypto_data_aggregator.Symbols.{Index, SymbolMap}
use crypto_data_aggregator.Consolidated.Bars.{contains}

-- `_KINDS` and `_SEVERITIES`
abbrev pub kinds : List String
kinds = "backfill" ∷ "restatement" ∷ "bad_range" ∷ "gap" ∷ "note" ∷ []

abbrev pub severities : List String
severities = "info" ∷ "minor" ∷ "major" ∷ "critical" ∷ []

-- The keyword arguments of `record_correction`.
pub record Correction : Type 0 where
  pub table_name : String
  pub kind : String
  pub severity : String
  pub symbol : Option String
  pub venue : Option String
  pub effective_from_ns : ℕ
  pub effective_to_ns : ℕ
  pub rows_affected : Option ℕ
  pub note : Option String

-- A row of `corrections`; `recorded_at_ns` is its id.
pub record LoggedCorrection : Type 0 where
  pub correction_id : ℕ
  pub recorded_at_ns : ℕ
  pub correction : Correction

unfoldable pub is_logged : ℕ → List LoggedCorrection → Bool
is_logged cid [] = false
is_logged cid (row ∷ log) = row.correction_id == cid || is_logged cid log

-- The id and the log after it. The id is the primary key.
unfoldable pub record_correction :
    Correction → ℕ → List LoggedCorrection → Result (ℕ × List LoggedCorrection)
unfolding is_logged contains
record_correction c cid log =
    if not (contains c.kind kinds)
    then raise value_error
    else if not (contains c.severity severities)
    then raise value_error
    else if is_logged cid log
    then raise constraint_error
    else ok
        (cid, log ++ (record { correction_id = cid; recorded_at_ns = cid; correction = c } ∷ []))

abbrev pub matches : Option String → Option String → Bool
matches none s = true
matches (some wanted) none = eq wanted ""
matches (some wanted) (some s) = eq wanted "" || eq s wanted

-- `list_corrections`; an empty filter is none. `since` is in ns.
unfoldable pub list_corrections :
    Option String
    → Option String
    → Option String
    → Option ℕ
    → List LoggedCorrection
    → List LoggedCorrection
list_corrections table_name symbol venue since log =
    sorted_by (λ row. row.correction_id)
      (select
        (λ row.
          matches table_name (some row.correction.table_name)
          && matches symbol row.correction.symbol
          && matches venue row.correction.venue
          && elim since [ none ↦ true | some ts ↦ leb ts row.recorded_at_ns ])
        log)

-- A row of `symbol_map`.
pub record Mapping : Type 0 where
  pub canonical : String
  pub venue : String
  pub native : String
  pub asset_class : String
  pub base : String
  pub quote : String
  pub effective_from_ns : ℕ
  pub effective_to_ns : Option ℕ
  pub note : Option String

unfoldable pub base_quote : (String → List String) → String → String × String
base_quote parts canonical = elim (parts canonical) [
  | [] ↦ (canonical, "")
  | base ∷ rest ↦ elim rest [ [] ↦ (canonical, "") | quote ∷ more ↦ (base, quote) ]
]

unfoldable pub asset_class_of : (String → Bool) → String → String
asset_class_of is_perp canonical = if is_perp canonical then "perp" else "spot"

-- Whether two rows have the same primary key.
unfoldable pub has_key : String → String → ℕ → Mapping → Bool
has_key canonical venue eff m =
    eq m.canonical canonical && eq m.venue venue && m.effective_from_ns == eff

unfoldable pub has_mapping : String → String → ℕ → List Mapping → Bool
unfolding has_key
has_mapping canonical venue eff [] = false
has_mapping canonical venue eff (m ∷ table) =
    has_key canonical venue eff m || has_mapping canonical venue eff table

-- `INSERT ... ON CONFLICT DO NOTHING` of one row, and of many.
unfoldable pub insert_mapping : Mapping → List Mapping → List Mapping
unfolding has_mapping
insert_mapping m table =
    if has_mapping m.canonical m.venue m.effective_from_ns table then table else table ++ (m ∷ [])

unfoldable pub insert_mappings : List Mapping → List Mapping → List Mapping
unfolding insert_mapping
insert_mappings [] table = table
insert_mappings (m ∷ ms) table = insert_mappings ms (insert_mapping m table)

abbrev pub eff_or_zero : Option ℕ → ℕ
eff_or_zero none = 0
eff_or_zero (some eff) = eff

module _ (parts : String → List String) (is_perp : String → Bool) where
  unfoldable pub mapping_of : ℕ → String → String × String → Mapping
  unfolding base_quote asset_class_of
  mapping_of eff canonical (venue, native) =
      let (base, quote) = base_quote parts canonical in
      record {
        canonical = canonical;
        venue = venue;
        native = native;
        asset_class = asset_class_of is_perp canonical;
        base = base;
        quote = quote;
        effective_from_ns = eff;
        effective_to_ns = none;
        note = some "seeded from config/symbols.toml";
      }

  -- `rows`
  unfoldable pub seed_rows : ℕ → List (String × SymbolMap) → List Mapping
  unfolding mapping_of
  seed_rows eff [] = []
  seed_rows eff ((canonical, sym) ∷ more) =
      map (mapping_of eff canonical) sym.venue_native ++ seed_rows eff more

  -- The number of mappings and the table.
  unfoldable pub seed_symbol_map : Option ℕ → Index → List Mapping → ℕ × List Mapping
  unfolding insert_mappings seed_rows
  seed_symbol_map effective_from_ns index table =
      let after =
        insert_mappings (seed_rows (eff_or_zero effective_from_ns) index.by_canonical) table in
      (length after, after)

abbrev pub coalesce : Option String → Option String → Option String
coalesce none old = old
coalesce (some note) old = some note

abbrev pub is_open : Option ℕ → Bool
is_open none = true
is_open (some t) = false

-- The `UPDATE` of `retire_mapping`.
unfoldable pub close_mapping : String → String → ℕ → Option String → Mapping → Mapping
close_mapping canonical venue effective_to_ns note m =
    if eq m.canonical canonical && eq m.venue venue && is_open m.effective_to_ns
    then record m { effective_to_ns = some effective_to_ns; note = coalesce note m.note }
    else m

-- Both tables after the call; the update stands even if the correction is refused. `noted` is the
-- f-string of the note.
unfoldable pub retire_mapping :
    (Option String → String)
    → String
    → String
    → ℕ
    → Option String
    → ℕ
    → List Mapping
    → List LoggedCorrection
    → List Mapping × Result (ℕ × List LoggedCorrection)
unfolding close_mapping record_correction
retire_mapping noted canonical venue effective_to_ns note cid table log = (
  map (close_mapping canonical venue effective_to_ns note) table,
  record_correction
      (record {
        table_name = "symbol_map";
        kind = "restatement";
        severity = "info";
        symbol = some canonical;
        venue = some venue;
        effective_from_ns = effective_to_ns;
        effective_to_ns = effective_to_ns;
        rows_affected = none;
        note = some (noted note);
      })
      cid log,
)

abbrev pub is_before_end : ℕ → Option ℕ → Bool
is_before_end asof_ns none = true
is_before_end asof_ns (some t) = ltb asof_ns t

unfoldable pub is_effective : ℕ → Mapping → Bool
is_effective asof_ns m = leb m.effective_from_ns asof_ns && is_before_end asof_ns m.effective_to_ns

unfoldable pub symbol_map_asof : ℕ → List Mapping → List Mapping
unfolding is_effective
symbol_map_asof asof_ns table =
    sorted_by {K = String × String} (λ m. (m.canonical, m.venue))
      (select (is_effective asof_ns) table)
