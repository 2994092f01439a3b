-- ===== src/Corrections/Tests.antt =====
-- Runs of the symbol map, and its theorems at concrete inputs.
use Prim.Native.String.{String}
use crypto_data_aggregator.Prelude.{
  ◌≡◌, refl, Bool, false, Option, none, some, List, [], ◌∷◌, All, arith,
}
use crypto_data_aggregator.Prelude.Order.{text_order, text_le}
use crypto_data_aggregator.Python.{raise, value_error}
use crypto_data_aggregator.Symbols.{Index}
use crypto_data_aggregator.Corrections.{
  Mapping, Correction, seed_symbol_map, record_correction, retire_mapping, symbol_map_asof,
  has_mapping,
}
use crypto_data_aggregator.Corrections.Mappings.{seed_symbol_map-retire_mapping, is_pair}

abbrev in_parts : String → List String
in_parts s = "BTC" ∷ "USD" ∷ []

abbrev never_perp : String → Bool
never_perp s = false

-- The configuration, with the ticker that a rename brings.
abbrev listing : String → Index
listing ticker = record {
  by_canonical =
      ("BTC-USD", record { canonical = "BTC-USD"; venue_native = ("kraken", ticker) ∷ [] }) ∷ [];
  reverse = [];
}

abbrev old_row : Mapping
old_row = record {
  canonical = "BTC-USD";
  venue = "kraken";
  native = "XBTUSD";
  asset_class = "spot";
  base = "BTC";
  quote = "USD";
  effective_from_ns = 0;
  effective_to_ns = none;
  note = some "seeded from config/symbols.toml";
}

abbrev noted_as : Option String → String
noted_as _ = "mapping retired"

first_seed : seed_symbol_map in_parts never_perp none (listing "XBTUSD") [] ≡ (1, old_row ∷ [])
unfolding seed_symbol_map
first_seed = refl

-- A rename: the old ticker is retired, and the new one is seeded.
seed_symbol_map-retire_mapping_example :
    All
      (λ m. is_pair "BTC-USD" "kraken" m ≡ false)
      (symbol_map_asof 700
        (seed_symbol_map in_parts never_perp none
          (listing "BTCUSD")
          (retire_mapping noted_as "BTC-USD" "kraken" 500 none 9 (old_row ∷ []) []).0).1)
seed_symbol_map-retire_mapping_example =
    seed_symbol_map-retire_mapping in_parts never_perp none (listing "BTCUSD") noted_as "BTC-USD"
      "kraken" 500 none 9 (old_row ∷ []) [] 700 (unfold has_mapping text_le in refl) ((λ p. tt), tt)
      (omega arith)

abbrev misnamed : Correction
misnamed = record {
  table_name = "trades";
  kind = "oops";
  severity = "info";
  symbol = none;
  venue = none;
  effective_from_ns = 0;
  effective_to_ns = 0;
  rows_affected = none;
  note = none;
}

bad_kind : record_correction misnamed 9 [] ≡ raise value_error
unfolding record_correction text_le
bad_kind = refl
