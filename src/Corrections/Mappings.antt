-- ===== src/Corrections/Mappings.antt =====
-- The symbol map after a mapping has been retired.
use Prim.Native.String.{String}
use crypto_data_aggregator.Prelude.{
  ℕ, ◌≤◌, ◌≡◌, refl, ap, ◌∙◌, subst, inl, inr, Bool, true, false, ◌&&◌, Option, none, some, List,
  [], ◌∷◌, map, arith, All, All-append, All-imp, All-map, All-select, In-of_All, Bool-cases,
}
use crypto_data_aggregator.Prelude.Order.{text_order, pair_order, eq, eq→≡}
use crypto_data_aggregator.Prelude.Keyed.{All-sorted_by}
use crypto_data_aggregator.Symbols.{Index, SymbolMap}
use crypto_data_aggregator.Corrections.{
  Mapping, LoggedCorrection, has_key, has_mapping, insert_mapping, insert_mappings, mapping_of,
  seed_rows, eff_or_zero, seed_symbol_map, close_mapping, retire_mapping, is_effective,
  symbol_map_asof,
}
use crypto_data_aggregator.Corrections.Seeds.{is_present, insert_mapping-keeps}

-- Whether a row is of a symbol at a venue.
abbrev pub is_pair : String → String → Mapping → Bool
is_pair canonical venue m = eq m.canonical canonical && eq m.venue venue

-- The row, if it is of the pair, ends by `t`; `EndsIfClosed` asks it only of rows that end at all.
abbrev Ends : ℕ → Option ℕ → Type 0
Ends t none = ⊥
Ends t (some e) = e ≤ t

abbrev pub EndsIfClosed : ℕ → Option ℕ → Type 0
EndsIfClosed t none = Unit
EndsIfClosed t (some e) = e ≤ t

module _ (canonical venue : String) (t : ℕ) where
  abbrev HasEnded : Mapping → Type 0
  HasEnded m = is_pair canonical venue m ≡ true → Ends t m.effective_to_ns

  close_mapping-HasEnded :
      (note : Option String) (m : Mapping)
      → (is_pair canonical venue m ≡ true → EndsIfClosed t m.effective_to_ns)
      → HasEnded (close_mapping canonical venue t note m)
  unfolding close_mapping
  close_mapping-HasEnded note m h = closed m.effective_to_ns refl
    where
      closed :
          (o : Option ℕ) → m.effective_to_ns ≡ o → HasEnded (close_mapping canonical venue t note m)
      closed none e = ground (arith, e)
      closed (some k) e = ground (arith, e, h)

  -- A row of the pair cannot be added beside one that starts at the same time.
  insert_mapping-HasEnded :
      (m : Mapping) (table : List Mapping)
      → has_mapping canonical venue m.effective_from_ns table ≡ true
      → All HasEnded table
      → All HasEnded (insert_mapping m table)
  unfolding insert_mapping
  insert_mapping-HasEnded m table p h = elim (Bool-cases (is_present table m)) [
    | inl e ↦ rw e h
    | inr e ↦ rw e (All-append HasEnded table (m ∷ []) h (λ same. absurd (clash same e), tt))
  ]
    where
      clash : is_pair canonical venue m ≡ true → is_present table m ≡ false → ⊥
      clash same e =
          let c = eq→≡ m.canonical canonical (ground (arith, same)) in
          let v = eq→≡ m.venue venue (ground (arith, same)) in
          let q : is_present table m ≡ true =
            ap (λ x. has_mapping x m.venue m.effective_from_ns table) c
            ∙ ap (λ x. has_mapping canonical x m.effective_from_ns table) v
            ∙ p in
          ground (arith, q, e)

  insert_mappings-HasEnded :
      (eff : ℕ) (ms table : List Mapping)
      → All (λ m. m.effective_from_ns ≡ eff) ms
      → has_mapping canonical venue eff table ≡ true
      → All HasEnded table
      → All HasEnded (insert_mappings ms table)
  unfolding insert_mappings
  insert_mappings-HasEnded eff [] table s p h = h
  insert_mappings-HasEnded eff (m ∷ ms) table s p h =
      insert_mappings-HasEnded eff ms (insert_mapping m table) s.1
        (insert_mapping-keeps canonical venue eff m table p)
        (insert_mapping-HasEnded m table (ap (λ n. has_mapping canonical venue n table) s.0 ∙ p) h)

  close_all-has_mapping :
      (remark : Option String) (eff : ℕ) (table : List Mapping)
      → has_mapping canonical venue eff (map (close_mapping canonical venue t remark) table)
        ≡ has_mapping canonical venue eff table
  unfolding has_mapping has_key close_mapping
  close_all-has_mapping remark eff [] = refl
  close_all-has_mapping remark eff (m ∷ table) =
      ground (arith, close_all-has_mapping remark eff table)

  gone :
      (asof_ns : ℕ) (m : Mapping)
      → t ≤ asof_ns
      → HasEnded m
      → is_effective asof_ns m ≡ true
      → is_pair canonical venue m ≡ false
  unfolding is_effective
  gone asof_ns m le h e = elim (Bool-cases (is_pair canonical venue m)) [
    | inl p ↦ absurd (past m.effective_to_ns refl (h p))
    | inr p ↦ p
  ]
    where
      past : (o : Option ℕ) → m.effective_to_ns ≡ o → Ends t m.effective_to_ns → ⊥
      past none q k = subst (Ends t) q k
      past (some n) q k = let k' : n ≤ t = subst (Ends t) q k in ground (arith, e, q, k', le)

seed_rows-eff :
    (parts : String → List String) (is_perp : String → Bool) (eff : ℕ)
    (d : List (String × SymbolMap))
    → All (λ m. m.effective_from_ns ≡ eff) (seed_rows parts is_perp eff d)
unfolding seed_rows mapping_of
seed_rows-eff parts is_perp eff [] = tt
seed_rows-eff parts is_perp eff ((canonical, sym_map) ∷ more) =
    All-append _ (map (mapping_of parts is_perp eff canonical) sym_map.venue_native) _
      (All-map _ (mapping_of parts is_perp eff canonical) sym_map.venue_native
        (all_start sym_map.venue_native))
      (seed_rows-eff parts is_perp eff more)
  where
    all_start :
        (natives : List (String × String))
        → All (λ n. (mapping_of parts is_perp eff canonical n).effective_from_ns ≡ eff) natives
    all_start [] = tt
    all_start ((v, n) ∷ natives) = (refl, all_start natives)

-- After a mapping is retired at `t`, if every row of its symbol and venue that was closed ends at `t` or
-- before, seeding from any configuration with a start that the table has for it brings no mapping of that
-- symbol at that venue back: from `t` on, the symbol map has none.
pub seed_symbol_map-retire_mapping :
    (parts : String → List String) (is_perp : String → Bool) (eff : Option ℕ) (index : Index)
    (noted : Option String → String) (canonical venue : String) (t : ℕ) (note : Option String)
    (cid : ℕ) (table : List Mapping) (log : List LoggedCorrection) (asof_ns : ℕ)
    → has_mapping canonical venue (eff_or_zero eff) table ≡ true
    → All (λ m. is_pair canonical venue m ≡ true → EndsIfClosed t m.effective_to_ns) table
    → t ≤ asof_ns
    → let retired = (retire_mapping noted canonical venue t note cid table log).0 in
      All
        (λ m. is_pair canonical venue m ≡ false)
        (symbol_map_asof asof_ns (seed_symbol_map parts is_perp eff index retired).1)
unfolding seed_symbol_map retire_mapping symbol_map_asof
seed_symbol_map-retire_mapping parts is_perp eff index noted canonical venue t note cid table log
      asof_ns p h le =
    let e = eff_or_zero eff in
    let closed = map (close_mapping canonical venue t note) table in
    let ended =
      insert_mappings-HasEnded canonical venue t e (seed_rows parts is_perp e index.by_canonical)
        closed (seed_rows-eff parts is_perp e index.by_canonical)
        (close_all-has_mapping canonical venue t note e table ∙ p)
        (All-map _ (close_mapping canonical venue t note) table
          (All-imp (λ m k. close_mapping-HasEnded canonical venue t note m k) table h)) in
    All-sorted_by _ _ _ (
      All-select _ (is_effective asof_ns) _
        (λ m i k. gone canonical venue t asof_ns m le (In-of_All _ _ ended i) k))
