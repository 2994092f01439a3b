-- ===== src/Prelude/Within.antt =====
-- Lists inside lists.
use mathlib.Core.List.{List, [], ◌∷◌, ◌++◌}

-- `xs` stands inside `ys`, in the same order.
pub data IsWithin {ℓ} {A : Type ℓ} : List A → List A → Type ℓ where
  nil : (ys : List A) → IsWithin [] ys
  skip : {xs ys : List A} (y : A) → IsWithin xs ys → IsWithin xs (y ∷ ys)
  keep : {xs ys : List A} (x : A) → IsWithin xs ys → IsWithin (x ∷ xs) (x ∷ ys)

pub IsWithin-same {ℓ} : {A : Type ℓ} (xs : List A) → IsWithin xs xs
IsWithin-same [] = IsWithin.nil []
IsWithin-same (x ∷ xs) = IsWithin.keep x (IsWithin-same xs)

pub IsWithin-skip {ℓ} :
    {A : Type ℓ} {xs ys : List A} (zs : List A) → IsWithin xs ys → IsWithin xs (zs ++ ys)
IsWithin-skip [] w = w
IsWithin-skip (z ∷ zs) w = IsWithin.skip z (IsWithin-skip zs w)

pub IsWithin-append {ℓ} :
    {A : Type ℓ} {xs ys us vs : List A}
    → IsWithin xs ys
    → IsWithin us vs
    → IsWithin (xs ++ us) (ys ++ vs)
IsWithin-append (IsWithin.nil ys) w = IsWithin-skip ys w
IsWithin-append (IsWithin.skip y v) w = IsWithin.skip y (IsWithin-append v w)
IsWithin-append (IsWithin.keep x v) w = IsWithin.keep x (IsWithin-append v w)
