-- ===== src/Prelude/Keyed.antt =====
-- `xs.sort(key=f)`, a stable insertion sort.
use crypto_data_aggregator.Prelude.Tests.{if◌then◌else◌, Bool-cases}
use crypto_data_aggregator.Prelude.Lists.{length, All, All-imp, Ascends}
use Prim.Native.Nat.{suc}
use mathlib.Core.Path.{◌≡◌, refl, ap, ◌∙◌}
use crypto_data_aggregator.Prelude.Order.{Order, ◌≼◌}
use mathlib.Core.Logic.{inl, inr}
use mathlib.Core.List.{List, [], ◌∷◌, Perm}
use mathlib.Core.List.Perm
use native.Mathlib.Omega.{arith}

module _ {ℓ κ} {A : Type ℓ} {K : Type κ} ⦃o : Order K⦄ (f : A → K) where
  insert_by : A → List A → List A
  insert_by x [] = x ∷ []
  insert_by x (y ∷ ys) = if o.le (f x) (f y) then x ∷ y ∷ ys else y ∷ insert_by x ys

  unfoldable pub sorted_by : List A → List A
  unfolding insert_by
  sorted_by [] = []
  sorted_by (x ∷ xs) = insert_by x (sorted_by xs)

  All-insert_by {μ} :
      (P : A → Type μ) (x : A) (ys : List A) → P x → All P ys → All P (insert_by x ys)
  unfolding insert_by
  All-insert_by P x [] p h = (p, tt)
  All-insert_by P x (y ∷ ys) p h = elim (Bool-cases (o.le (f x) (f y))) [
    | inl e ↦ rw e (p, h)
    | inr e ↦ rw e (h.0, All-insert_by P x ys p h.1)
  ]

  pub All-sorted_by {μ} : (P : A → Type μ) (xs : List A) → All P xs → All P (sorted_by xs)
  unfolding sorted_by
  All-sorted_by P [] h = tt
  All-sorted_by P (x ∷ xs) h = All-insert_by P x (sorted_by xs) h.0 (All-sorted_by P xs h.1)

  insert_by-Ascends :
      (x : A) (ys : List A)
      → Ascends (λ a b. f a ≼ f b) ys
      → Ascends (λ a b. f a ≼ f b) (insert_by x ys)
  unfolding insert_by
  insert_by-Ascends x [] h = (tt, tt)
  insert_by-Ascends x (y ∷ ys) h = elim (Bool-cases (o.le (f x) (f y))) [
    | inl e ↦ rw e ((e, All-imp (λ a k. o.le_trans (f x) (f y) (f a) e k) ys h.0), h)
    | inr e ↦ rw e (
      All-insert_by (λ a. f y ≼ f a) x ys (ground (arith, o.le_total (f x) (f y))) h.0,
      insert_by-Ascends x ys h.1,
    )
  ]

  pub sorted_by-Ascends : (xs : List A) → Ascends (λ a b. f a ≼ f b) (sorted_by xs)
  unfolding sorted_by
  sorted_by-Ascends [] = tt
  sorted_by-Ascends (x ∷ xs) = insert_by-Ascends x (sorted_by xs) (sorted_by-Ascends xs)

  length-insert_by : (x : A) (ys : List A) → length (insert_by x ys) ≡ suc (length ys)
  unfolding insert_by
  length-insert_by x [] = refl
  length-insert_by x (y ∷ ys) = ground (arith, length-insert_by x ys)

  pub length-sorted_by : (xs : List A) → length (sorted_by xs) ≡ length xs
  unfolding sorted_by
  length-sorted_by [] = refl
  length-sorted_by (x ∷ xs) = length-insert_by x (sorted_by xs) ∙ ap suc (length-sorted_by xs)

  insert_by-perm : (x : A) (ys : List A) → Perm (insert_by x ys) (x ∷ ys)
  unfolding insert_by
  insert_by-perm x [] = Perm.refl (x ∷ [])
  insert_by-perm x (y ∷ ys) = elim (Bool-cases (o.le (f x) (f y))) [
    | inl e ↦ rw e (Perm.refl (x ∷ y ∷ ys))
    | inr e ↦ rw e (Perm.trans (Perm.cons y (insert_by-perm x ys)) (Perm.swap x y ys))
  ]

  pub sorted_by-perm : (xs : List A) → Perm (sorted_by xs) xs
  unfolding sorted_by
  sorted_by-perm [] = Perm.refl []
  sorted_by-perm (x ∷ xs) =
      Perm.trans (insert_by-perm x (sorted_by xs)) (Perm.cons x (sorted_by-perm xs))
