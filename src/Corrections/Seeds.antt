-- ===== src/Corrections/Seeds.antt =====
-- The keys of the symbol map under a seeding, and a seeding that is repeated.
use Prim.Native.String.{String}
use crypto_data_aggregator.Prelude.{
  ℕ, ◌≡◌, refl, ap, inl, inr, Bool, true, ◌||◌, Option, List, [], ◌∷◌, ◌++◌, arith, length, All,
  Bool-cases,
}
use crypto_data_aggregator.Prelude.Order.{text_order, pair_order, eq_refl}
use crypto_data_aggregator.Symbols.{Index}
use crypto_data_aggregator.Corrections.{
  Mapping, has_key, has_mapping, insert_mapping, insert_mappings, seed_rows, eff_or_zero,
  seed_symbol_map,
}

-- Whether the key of a row is in the table.
abbrev pub is_present : List Mapping → Mapping → Bool
is_present table m = has_mapping m.canonical m.venue m.effective_from_ns table

has_mapping-append :
    (canonical venue : String) (eff : ℕ) (table more : List Mapping)
    → has_mapping canonical venue eff (table ++ more)
      ≡ (has_mapping canonical venue eff table || has_mapping canonical venue eff more)
unfolding has_mapping
has_mapping-append canonical venue eff [] more = refl
has_mapping-append canonical venue eff (m ∷ table) more =
    ground (arith, has_mapping-append canonical venue eff table more)

own_key : (m : Mapping) → has_key m.canonical m.venue m.effective_from_ns m ≡ true
unfolding has_key
own_key m = ground (arith, eq_refl m.canonical, eq_refl m.venue)

-- An insertion keeps the keys that are there, and adds its own.
pub insert_mapping-keeps :
    (canonical venue : String) (eff : ℕ) (m : Mapping) (table : List Mapping)
    → has_mapping canonical venue eff table ≡ true
    → has_mapping canonical venue eff (insert_mapping m table) ≡ true
unfolding insert_mapping
insert_mapping-keeps canonical venue eff m table h =
    ground (arith, h, has_mapping-append canonical venue eff table (m ∷ []))

insert_mapping-present :
    (m : Mapping) (table : List Mapping) → is_present (insert_mapping m table) m ≡ true
unfolding insert_mapping
insert_mapping-present m table = elim (Bool-cases (is_present table m)) [
  | inl e ↦ rw e e
  | inr e ↦
      rw (e, has_mapping-append m.canonical m.venue m.effective_from_ns table (m ∷ []))
        (rw e (unfold has_mapping in rw (own_key m) refl))
]

insert_mappings-keeps :
    (canonical venue : String) (eff : ℕ) (ms table : List Mapping)
    → has_mapping canonical venue eff table ≡ true
    → has_mapping canonical venue eff (insert_mappings ms table) ≡ true
unfolding insert_mappings
insert_mappings-keeps canonical venue eff [] table h = h
insert_mappings-keeps canonical venue eff (m ∷ ms) table h =
    insert_mappings-keeps canonical venue eff ms (insert_mapping m table)
      (insert_mapping-keeps canonical venue eff m table h)

insert_mappings-present :
    (ms table : List Mapping) → All (λ m. is_present (insert_mappings ms table) m ≡ true) ms
unfolding insert_mappings
insert_mappings-present [] table = tt
insert_mappings-present (m ∷ ms) table = (
  insert_mappings-keeps m.canonical m.venue m.effective_from_ns ms (insert_mapping m table)
      (insert_mapping-present m table),
  insert_mappings-present ms (insert_mapping m table),
)

insert_mappings-same :
    (ms table : List Mapping)
    → All (λ m. is_present table m ≡ true) ms
    → insert_mappings ms table ≡ table
unfolding insert_mappings insert_mapping
insert_mappings-same [] table h = refl
insert_mappings-same (m ∷ ms) table h = rw h.0 (insert_mappings-same ms table h.1)

module _ (parts : String → List String) (is_perp : String → Bool) (eff : Option ℕ)
    (index : Index) where
  -- Seeding again changes nothing, neither the table nor the count.
  seed_symbol_map_idem :
      (table : List Mapping)
      → let seeded = seed_symbol_map parts is_perp eff index table in
        seed_symbol_map parts is_perp eff index seeded.1 ≡ seeded
  unfolding seed_symbol_map
  seed_symbol_map_idem table =
      let ms = seed_rows parts is_perp (eff_or_zero eff) index.by_canonical in
      ap (λ t. (length t, t))
        (insert_mappings-same ms (insert_mappings ms table) (insert_mappings-present ms table))
