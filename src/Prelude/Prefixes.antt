-- ===== src/Prelude/Prefixes.antt =====
-- `xs[:n]`, for an `n` that is not negative.
use crypto_data_aggregator.Prelude.Lists.{All, Ascends, length}
use Prim.Native.Nat.{ℕ, zero, suc, ◌≤◌}
use mathlib.Core.List.{List, [], ◌∷◌}
use native.Mathlib.Omega.{arith}

module _ {ℓ} {A : Type ℓ} where
  abbrev pub take : ℕ → List A → List A
  take zero xs = []
  take (suc n) [] = []
  take (suc n) (x ∷ xs) = x ∷ take n xs

  pub All-take {κ} : (P : A → Type κ) (n : ℕ) (xs : List A) → All P xs → All P (take n xs)
  All-take P zero xs h = tt
  All-take P (suc n) [] h = tt
  All-take P (suc n) (x ∷ xs) h = (h.0, All-take P n xs h.1)

  pub Ascends-take {κ} :
      (R : A → A → Type κ) (n : ℕ) (xs : List A) → Ascends R xs → Ascends R (take n xs)
  Ascends-take R zero xs h = tt
  Ascends-take R (suc n) [] h = tt
  Ascends-take R (suc n) (x ∷ xs) h = (All-take (R x) n xs h.0, Ascends-take R n xs h.1)

  pub length-take_le : (n : ℕ) (xs : List A) → length (take n xs) ≤ n
  length-take_le zero xs = omega arith
  length-take_le (suc n) [] = omega arith
  length-take_le (suc n) (x ∷ xs) = omega (arith, length-take_le n xs)
