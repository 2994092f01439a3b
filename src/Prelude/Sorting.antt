-- ===== src/Prelude/Sorting.antt =====
-- `sorted(xs)` as a stable insertion sort, and `sorted(set(xs))`, over any total order.
use crypto_data_aggregator.Prelude.Tests.{if◌then◌else◌, Bool-cases}
use crypto_data_aggregator.Prelude.Lists.{length, All, All-imp, Ascends, In, here, there, In-of_All}
use crypto_data_aggregator.Prelude.Order.{eq, ≢_of_eq, Order, ◌≼◌, lt, ≼_of_not-lt}
use Prim.Native.Nat.{suc}
use mathlib.Core.Path.{◌≡◌, refl, sym, ap, ◌∙◌, subst}
use mathlib.Core.Logic.{◌⊎◌, inl, inr}
use mathlib.Core.Bool.{true, false}
use mathlib.Core.List.{List, [], ◌∷◌}
use native.Mathlib.Omega.{arith}

module _ {ℓ} {A : Type ℓ} ⦃o : Order A⦄ where
  insert : A → List A → List A
  insert x [] = x ∷ []
  insert x (y ∷ ys) = if o.le x y then x ∷ y ∷ ys else y ∷ insert x ys

  unfoldable pub sorted : List A → List A
  unfolding insert
  sorted [] = []
  sorted (x ∷ xs) = insert x (sorted xs)

  All-insert {κ} : (P : A → Type κ) (x : A) (ys : List A) → P x → All P ys → All P (insert x ys)
  unfolding insert
  All-insert P x [] p h = (p, tt)
  All-insert P x (y ∷ ys) p h = elim (Bool-cases (o.le x y)) [
    | inl e ↦ rw e (p, (h.0, h.1))
    | inr e ↦ rw e (h.0, All-insert P x ys p h.1)
  ]

  pub All-sorted {κ} : (P : A → Type κ) (xs : List A) → All P xs → All P (sorted xs)
  unfolding sorted
  All-sorted P [] h = tt
  All-sorted P (x ∷ xs) h = All-insert P x (sorted xs) h.0 (All-sorted P xs h.1)

  In-insert : {a : A} (x : A) (ys : List A) → (a ≡ x) ⊎ In a ys → In a (insert x ys)
  unfolding insert
  In-insert x [] (inl e) = here e
  In-insert x [] (inr m) = elim m [ ]
  In-insert x (y ∷ ys) (inl e) = elim (Bool-cases (o.le x y)) [
    | inl t ↦ rw t (here e)
    | inr t ↦ rw t (there (In-insert x ys (inl e)))
  ]
  In-insert x (y ∷ ys) (inr (here e)) = elim (Bool-cases (o.le x y)) [
    | inl t ↦ rw t (there (here e))
    | inr t ↦ rw t (here e)
  ]
  In-insert x (y ∷ ys) (inr (there m)) = elim (Bool-cases (o.le x y)) [
    | inl t ↦ rw t (there (there m))
    | inr t ↦ rw t (there (In-insert x ys (inr m)))
  ]

  pub In-sorted : {a : A} (xs : List A) → In a xs → In a (sorted xs)
  unfolding sorted
  In-sorted [] m = elim m [ ]
  In-sorted (x ∷ xs) (here e) = In-insert x (sorted xs) (inl e)
  In-sorted (x ∷ xs) (there m) = In-insert x (sorted xs) (inr (In-sorted xs m))

  length-insert : (x : A) (ys : List A) → length (insert x ys) ≡ suc (length ys)
  unfolding insert
  length-insert x [] = refl
  length-insert x (y ∷ ys) = ground (arith, length-insert x ys)

  pub length-sorted : (xs : List A) → length (sorted xs) ≡ length xs
  unfolding sorted
  length-sorted [] = refl
  length-sorted (x ∷ xs) = length-insert x (sorted xs) ∙ ap suc (length-sorted xs)

  Ascends-insert : (x : A) (ys : List A) → Ascends ◌≼◌ ys → Ascends ◌≼◌ (insert x ys)
  unfolding insert
  Ascends-insert x [] h = (tt, tt)
  Ascends-insert x (y ∷ ys) h = elim (Bool-cases (o.le x y)) [
    | inl e ↦ rw e ((e, All-imp (λ a k. o.le_trans x y a e k) ys h.0), h)
    | inr e ↦
        rw e (
          All-insert (λ a. y ≼ a) x ys (ground (arith, o.le_total x y)) h.0,
          Ascends-insert x ys h.1,
        )
  ]

  pub sorted-Ascends : (xs : List A) → Ascends ◌≼◌ (sorted xs)
  unfolding sorted
  sorted-Ascends [] = tt
  sorted-Ascends (x ∷ xs) = Ascends-insert x (sorted xs) (sorted-Ascends xs)

  insert-Ascends_sym {κ} :
      (R : A → A → Type κ)
      → ((a b : A) → R a b → R b a)
      → (x : A) (ys : List A) → All (R x) ys
      → Ascends R ys
      → Ascends R (insert x ys)
  unfolding insert
  insert-Ascends_sym R f x [] h k = (tt, tt)
  insert-Ascends_sym R f x (y ∷ ys) h k = elim (Bool-cases (o.le x y)) [
    | inl e ↦ rw e (h, k)
    | inr e ↦ rw e (All-insert (R y) x ys (f x y h.0) k.0, insert-Ascends_sym R f x ys h.1 k.1)
  ]

  -- What holds of every two elements, either way round, holds so of the sorted list.
  pub sorted-Ascends_sym {κ} :
      (R : A → A → Type κ)
      → ((a b : A) → R a b → R b a)
      → (xs : List A) → Ascends R xs
      → Ascends R (sorted xs)
  unfolding sorted
  sorted-Ascends_sym R f [] h = tt
  sorted-Ascends_sym R f (x ∷ xs) h =
      insert-Ascends_sym R f x (sorted xs) (All-sorted (R x) xs h.0) (sorted-Ascends_sym R f xs h.1)

  -- `sorted(set(xs))`: strictly ascending, each element once. Its length is `len(set(xs))`.
  insert_new : A → List A → List A
  insert_new x [] = x ∷ []
  insert_new x (y ∷ ys) =
      if lt x y then x ∷ y ∷ ys else if lt y x then y ∷ insert_new x ys else y ∷ ys

  unfoldable pub sorted_set : List A → List A
  unfolding insert_new
  sorted_set [] = []
  sorted_set (x ∷ xs) = insert_new x (sorted_set xs)

  -- The three outcomes of comparing the new element with the head.
  data Step (x y : A) (ys : List A) : Type ℓ where
    before : lt x y ≡ true → insert_new x (y ∷ ys) ≡ x ∷ y ∷ ys → Step x y ys
    after : lt y x ≡ true → insert_new x (y ∷ ys) ≡ y ∷ insert_new x ys → Step x y ys
    same : x ≡ y → insert_new x (y ∷ ys) ≡ y ∷ ys → Step x y ys

  step : (x y : A) (ys : List A) → Step x y ys
  unfolding insert_new
  step x y ys = elim (Bool-cases (lt x y)) [
    | inl e ↦ before e (rw e)
    | inr e ↦ elim (Bool-cases (lt y x)) [
      | inl f ↦ after f (rw (e, f))
      | inr f ↦ same (o.le_antisymm x y (≼_of_not-lt y x f) (≼_of_not-lt x y e)) (rw (e, f))
    ]
  ]

  All-insert_new {κ} :
      (P : A → Type κ) (x : A) (ys : List A) → P x → All P ys → All P (insert_new x ys)
  unfolding insert_new
  All-insert_new P x [] p h = (p, tt)
  All-insert_new P x (y ∷ ys) p h = elim (step x y ys) [
    | before _ e ↦ subst (All P) (sym e) (p, h)
    | after _ e ↦ subst (All P) (sym e) (h.0, All-insert_new P x ys p h.1)
    | same _ e ↦ subst (All P) (sym e) h
  ]

  pub All-sorted_set {κ} : (P : A → Type κ) (xs : List A) → All P xs → All P (sorted_set xs)
  unfolding sorted_set
  All-sorted_set P [] h = tt
  All-sorted_set P (x ∷ xs) h = All-insert_new P x (sorted_set xs) h.0 (All-sorted_set P xs h.1)

  In-insert_new : {a : A} (x : A) (ys : List A) → (a ≡ x) ⊎ In a ys → In a (insert_new x ys)
  unfolding insert_new
  In-insert_new x [] (inl e) = here e
  In-insert_new x [] (inr m) = elim m [ ]
  In-insert_new {a} x (y ∷ ys) (inl q) = elim (step x y ys) [
    | before _ e ↦ subst (In a) (sym e) (here q)
    | after _ e ↦ subst (In a) (sym e) (there (In-insert_new x ys (inl q)))
    | same s e ↦ subst (In a) (sym e) (here (q ∙ s))
  ]
  In-insert_new {a} x (y ∷ ys) (inr (here q)) = elim (step x y ys) [
    | before _ e ↦ subst (In a) (sym e) (there (here q))
    | after _ e ↦ subst (In a) (sym e) (here q)
    | same _ e ↦ subst (In a) (sym e) (here q)
  ]
  In-insert_new {a} x (y ∷ ys) (inr (there m)) = elim (step x y ys) [
    | before _ e ↦ subst (In a) (sym e) (there (there m))
    | after _ e ↦ subst (In a) (sym e) (there (In-insert_new x ys (inr m)))
    | same _ e ↦ subst (In a) (sym e) (there m)
  ]

  pub In-sorted_set : {a : A} (xs : List A) → In a xs → In a (sorted_set xs)
  unfolding sorted_set
  In-sorted_set [] m = elim m [ ]
  In-sorted_set (x ∷ xs) (here e) = In-insert_new x (sorted_set xs) (inl e)
  In-sorted_set (x ∷ xs) (there m) = In-insert_new x (sorted_set xs) (inr (In-sorted_set xs m))

  abbrev pub Lt : A → A → Type 0
  Lt a b = lt a b ≡ true

  Lt_trans : (a b c : A) → Lt a b → Lt b c → Lt a c
  Lt_trans a b c p q = ground (arith, o.le_trans b c a, o.le_total b c, o.le_total a b)

  Ascends-insert_new : (x : A) (ys : List A) → Ascends Lt ys → Ascends Lt (insert_new x ys)
  unfolding insert_new
  Ascends-insert_new x [] h = (tt, tt)
  Ascends-insert_new x (y ∷ ys) h = elim (step x y ys) [
    | before l e ↦ subst (Ascends Lt) (sym e) ((l, All-imp (λ a k. Lt_trans x y a l k) ys h.0), h)
    | after l e ↦
        subst (Ascends Lt) (sym e) (All-insert_new (Lt y) x ys l h.0, Ascends-insert_new x ys h.1)
    | same _ e ↦ subst (Ascends Lt) (sym e) h
  ]

  pub sorted_set-Ascends : (xs : List A) → Ascends Lt (sorted_set xs)
  unfolding sorted_set
  sorted_set-Ascends [] = tt
  sorted_set-Ascends (x ∷ xs) = Ascends-insert_new x (sorted_set xs) (sorted_set-Ascends xs)

  length-insert_new :
      (x : A) (ys : List A)
      → All (λ y. eq x y ≡ false) ys
      → length (insert_new x ys) ≡ suc (length ys)
  unfolding insert_new
  length-insert_new x [] h = refl
  length-insert_new x (y ∷ ys) h = elim (step x y ys) [
    | before _ e ↦ ap length e
    | after _ e ↦ ap length e ∙ ap suc (length-insert_new x ys h.1)
    | same q e ↦ absurd (≢_of_eq x y h.0 q)
  ]

  -- A list without equal elements is as long as its set.
  pub length-sorted_set :
      (xs : List A) → Ascends (λ a b. eq a b ≡ false) xs → length (sorted_set xs) ≡ length xs
  unfolding sorted_set
  length-sorted_set [] h = refl
  length-sorted_set (x ∷ xs) h =
      length-insert_new x (sorted_set xs) (All-sorted_set _ xs h.0)
      ∙ ap suc (length-sorted_set xs h.1)

  Lt_irrefl : (a : A) → Lt a a → ⊥
  Lt_irrefl a h = ground (arith, h, o.le_total a a)

  -- Inserting what stands there already changes nothing.
  length-insert_new-In :
      (x : A) (ys : List A) → Ascends Lt ys → In x ys → length (insert_new x ys) ≡ length ys
  length-insert_new-In x [] h m = elim m [ ]
  length-insert_new-In x (y ∷ ys) h m = elim (step x y ys) [
    | before l e ↦ absurd (Lt_irrefl x (beyond l m))
    | after l e ↦ ap length e ∙ ap suc (length-insert_new-In x ys h.1 (later l m))
    | same q e ↦ ap length e
  ]
    where
      beyond : Lt x y → In x (y ∷ ys) → Lt x x
      beyond l (here e) = subst (Lt x) (sym e) l
      beyond l (there m) = Lt_trans x y x l (In-of_All (Lt y) ys h.0 m)

      later : Lt y x → In x (y ∷ ys) → In x ys
      later l (here e) = absurd (Lt_irrefl x (subst (λ a. Lt a x) (sym e) l))
      later l (there m) = m

  -- The set of a list that grows by one element.
  pub length-sorted_set_old :
      (x : A) (xs : List A) → In x xs → length (sorted_set (x ∷ xs)) ≡ length (sorted_set xs)
  unfolding sorted_set
  length-sorted_set_old x xs m =
      length-insert_new-In x (sorted_set xs) (sorted_set-Ascends xs) (In-sorted_set xs m)

  pub length-sorted_set_new :
      (x : A) (xs : List A)
      → All (λ y. eq x y ≡ false) xs
      → length (sorted_set (x ∷ xs)) ≡ suc (length (sorted_set xs))
  unfolding sorted_set
  length-sorted_set_new x xs h = length-insert_new x (sorted_set xs) (All-sorted_set _ xs h)
