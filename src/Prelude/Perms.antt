-- ===== src/Prelude/Perms.antt =====
-- Rearrangements of blocks.
use mathlib.Core.Path.{subst}
use mathlib.Core.List.{List, ◌++◌, Perm, append_assoc, perm_append_comm}
use mathlib.Core.List.Perm

module _ {ℓ} {A : Type ℓ} where
  pub swap_blocks : (a b c : List A) → Perm (a ++ (b ++ c)) (b ++ (a ++ c))
  swap_blocks a b c =
      subst (λ l. Perm l (b ++ (a ++ c))) (append_assoc a b c)
        (subst (Perm ((a ++ b) ++ c)) (append_assoc b a c)
          (Perm.append_right c (perm_append_comm a b)))
