-- ===== src/Symbols/Kinds.antt =====
-- The perpetuals and the spots of the configuration.
use Prim.Native.String.{String}
use mathlib.Core.List.Perm
use crypto_data_aggregator.Prelude.{
  Bool, not, List, [], ◌∷◌, ◌++◌, Perm, select, inl, inr, Bool-cases,
}
use crypto_data_aggregator.Prelude.Perms.{swap_blocks}
use crypto_data_aggregator.Symbols.{Index, all_canonical, perpetuals, spots}

-- Every symbol of the configuration is a perpetual or a spot, and none is both.
perpetuals-spots :
    (is_perp : String → Bool) (index : Index)
    → Perm (perpetuals is_perp index ++ spots is_perp index) (all_canonical index)
unfolding perpetuals spots
perpetuals-spots is_perp index = split_by (all_canonical index)
  where
    split_by :
        (names : List String)
        → Perm (select is_perp names ++ select (λ c. not (is_perp c)) names) names
    split_by [] = Perm.refl []
    split_by (c ∷ names) = elim (Bool-cases (is_perp c)) [
      | inl e ↦ rw e (Perm.cons c (split_by names))
      | inr e ↦ rw e (
          Perm.trans
            (swap_blocks (select is_perp names) (c ∷ []) (select (λ x. not (is_perp x)) names))
            (Perm.cons c (split_by names)))
    ]
