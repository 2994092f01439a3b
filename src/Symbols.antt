-- ===== src/Symbols.antt =====
-- cryptodata/core/symbols.py: canonical and native tickers, and the bit of each venue. The parsed
-- `config/symbols.toml` is an argument: a list of tables, each a dict of texts. `upper` stands for
-- `str.upper`, whose case tables belong to Python.
pub mod Bitmask
mod Kinds
pub mod Roundtrip
mod Tests
use Prim.Native.String.{String}
use crypto_data_aggregator.Prelude.{
  ℕ, ◌+◌, ◌^◌, Bool, not, select, Option, none, some, List, [], ◌∷◌, ◌++◌, ◌>>=◌, if◌then◌else◌,
}
use crypto_data_aggregator.Prelude.Order.{Order, text_order, pair_order, eq}
use crypto_data_aggregator.Prelude.Dict.{get, put, keys}
use crypto_data_aggregator.Prelude.Sorting.{sorted_set}

pub record SymbolMap : Type 0 where
  pub canonical : String
  -- venue -> native ticker
  pub venue_native : List (String × String)

unfoldable pub native_for : SymbolMap → String → Option String
native_for sym venue = get venue sym.venue_native

-- `sorted(set(venues))`, numbered: `{v: 1 << i for i, v in enumerate(...)}`
unfoldable pub enumerate_bits : ℕ → List String → List (String × ℕ)
enumerate_bits i [] = []
enumerate_bits i (v ∷ vs) = (v, 2 ^ i) ∷ enumerate_bits (i + 1) vs

unfoldable pub venue_bitmask_index : List String → List (String × ℕ)
unfolding enumerate_bits
venue_bitmask_index venues = enumerate_bits 0 (sorted_set venues)

-- `_build_index()`: (canonical -> SymbolMap, (venue, native) -> canonical)
pub record Index : Type 0 where
  pub by_canonical : List (String × SymbolMap)
  pub reverse : List ((String × String) × String)

-- `{k: v for k, v in entry.items() if k != "canonical"}`
unfoldable pub natives_of : List (String × String) → List (String × String)
natives_of [] = []
natives_of ((k, v) ∷ entry) =
    if eq k "canonical" then natives_of entry else (k, v) ∷ natives_of entry

module _ (upper : String → String) where
  -- `for venue, native in natives.items(): reverse[(venue, native.upper())] = canonical`
  unfoldable pub add_natives :
      String
      → List (String × String)
      → List ((String × String) × String)
      → List ((String × String) × String)
  add_natives canonical [] reverse = reverse
  add_natives canonical ((venue, native) ∷ natives) reverse =
      add_natives canonical natives (put (venue, upper native) canonical reverse)

  unfoldable pub indexed : String → List (String × String) → Index → Index
  unfolding add_natives
  indexed canonical natives index = record {
    by_canonical =
        put canonical (record { canonical = canonical; venue_native = natives }) index.by_canonical;
    reverse = add_natives canonical natives index.reverse;
  }

  -- One turn of the loop; `none` is the `KeyError` of an entry without a canonical name.
  unfoldable pub add_entry : List (String × String) → Index → Option Index
  unfolding indexed natives_of
  add_entry entry index = do
    canonical ← get "canonical" entry
    some (indexed canonical (natives_of entry) index)

  unfoldable pub add_entries : List (List (String × String)) → Index → Option Index
  unfolding add_entry
  add_entries [] index = some index
  add_entries (entry ∷ entries) index = do next ← add_entry entry index; add_entries entries next

  unfoldable pub build_index : List (List (String × String)) → Option Index
  unfolding add_entries
  build_index symbols = add_entries symbols (record { by_canonical = []; reverse = [] })

  unfoldable pub to_canonical : Index → String → String → Option String
  to_canonical index native venue = get (venue, upper native) index.reverse

abbrev pub all_canonical : Index → List String
all_canonical index = keys index.by_canonical

-- `perpetuals` and `spots`; `is_perp` stands for `c.endswith("-PERP")`.
unfoldable pub perpetuals : (String → Bool) → Index → List String
perpetuals is_perp index = select is_perp (all_canonical index)

unfoldable pub spots : (String → Bool) → Index → List String
spots is_perp index = select (λ c. not (is_perp c)) (all_canonical index)

unfoldable pub to_native : Index → String → String → Option String
unfolding native_for
to_native index canonical venue = do sym ← get canonical index.by_canonical; native_for sym venue

-- A native ticker that is absent or empty leaves the symbol out.
abbrev pub carried : String → Option String → List (String × String)
carried canonical none = []
carried canonical (some native) = if eq native "" then [] else (canonical, native) ∷ []

unfoldable pub carried_by : String → List (String × SymbolMap) → List (String × String)
unfolding native_for
carried_by venue [] = []
carried_by venue ((canonical, sym) ∷ d) =
    carried canonical (native_for sym venue) ++ carried_by venue d

unfoldable pub symbols_for_venue : Index → String → List (String × String)
unfolding carried_by
symbols_for_venue index venue = carried_by venue index.by_canonical
