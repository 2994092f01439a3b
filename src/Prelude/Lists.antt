-- ===== src/Prelude/Lists.antt =====
-- Lists measured by native numbers, and predicates on lists by recursion, which compute to tuples.
use Prim.Native.Nat.{ℕ, zero, suc, ◌+◌, ◌≤◌}
use mathlib.Core.Path.{◌≡◌, refl, sym, ap, ◌∙◌, subst}
use mathlib.Core.Logic.{inl, inr}
use mathlib.Core.Bool.{Bool, true}
use mathlib.Core.List.{List, [], ◌∷◌, ◌++◌, map}
use native.Mathlib.Omega.{arith}
use crypto_data_aggregator.Prelude.Tests.{if◌then◌else◌, Bool-cases}

module _ {ℓ} {A : Type ℓ} where
  abbrev pub length : List A → ℕ
  length [] = 0
  length (x ∷ xs) = suc (length xs)

  abbrev pub get_or : List A → ℕ → A → A
  get_or [] i d = d
  get_or (x ∷ xs) zero d = x
  get_or (x ∷ xs) (suc i) d = get_or xs i d

  -- `xs[-1]`, for a list that is known to start with `x`.
  abbrev pub last_of : A → List A → A
  last_of x [] = x
  last_of x (y ∷ ys) = last_of y ys

  -- `[x for x in xs if p(x)]`
  abbrev pub select : (A → Bool) → List A → List A
  select p [] = []
  select p (x ∷ xs) = if p x then x ∷ select p xs else select p xs

  abbrev pub All {κ} : (A → Type κ) → List A → Type κ
  All P [] = Unit
  All P (x ∷ xs) = P x × All P xs

  -- Every earlier element is related to every later one.
  abbrev pub Ascends {κ} : (A → A → Type κ) → List A → Type κ
  Ascends R [] = Unit
  Ascends R (x ∷ xs) = All (R x) xs × Ascends R xs

-- `a in xs`, with the place where it stands.
pub data In {ℓ} {A : Type ℓ} (a : A) : List A → Type ℓ where
  here : {x : A} {xs : List A} → a ≡ x → In a (x ∷ xs)
  there : {x : A} {xs : List A} → In a xs → In a (x ∷ xs)

module _ {ℓ} {A : Type ℓ} where
  pub length-append : (xs ys : List A) → length (xs ++ ys) ≡ length xs + length ys
  length-append [] ys = omega arith
  length-append (x ∷ xs) ys = omega (arith, length-append xs ys)

  pub length-map {κ} : {B : Type κ} (f : A → B) (xs : List A) → length (map f xs) ≡ length xs
  length-map f [] = refl
  length-map f (x ∷ xs) = ap suc (length-map f xs)

  pub length-select-le : (p : A → Bool) (xs : List A) → length (select p xs) ≤ length xs
  length-select-le p [] = omega arith
  length-select-le p (x ∷ xs) = ground (arith, length-select-le p xs)

  pub All-append {κ} : (P : A → Type κ) (xs ys : List A) → All P xs → All P ys → All P (xs ++ ys)
  All-append P [] ys hx hy = hy
  All-append P (x ∷ xs) ys hx hy = (hx.0, All-append P xs ys hx.1 hy)

  pub All-imp {κ μ} :
      {P : A → Type κ} {Q : A → Type μ}
      → ((a : A) → P a → Q a)
      → (xs : List A) → All P xs
      → All Q xs
  All-imp f [] h = tt
  All-imp f (x ∷ xs) h = (f x h.0, All-imp f xs h.1)

  pub All-and {κ μ} :
      (P : A → Type κ) (Q : A → Type μ) (xs : List A)
      → All P xs
      → All Q xs
      → All (λ a. P a × Q a) xs
  All-and P Q [] h k = tt
  All-and P Q (x ∷ xs) h k = ((h.0, k.0), All-and P Q xs h.1 k.1)

  pub All-map {κ μ} :
      {B : Type κ} (P : B → Type μ) (f : A → B) (xs : List A)
      → All (λ a. P (f a)) xs
      → All P (map f xs)
  All-map P f [] h = tt
  All-map P f (x ∷ xs) h = (h.0, All-map P f xs h.1)

  -- What holds of all that is selected.
  pub All-select {κ} :
      (P : A → Type κ) (p : A → Bool) (xs : List A)
      → ((a : A) → In a xs → p a ≡ true → P a)
      → All P (select p xs)
  All-select P p [] f = tt
  All-select P p (x ∷ xs) f = elim (Bool-cases (p x)) [
    | inl e ↦ rw e (f x (here refl) e, All-select P p xs (λ a m. f a (there m)))
    | inr e ↦ rw e (All-select P p xs (λ a m. f a (there m)))
  ]

  pub All-select_keep {κ} :
      (P : A → Type κ) (p : A → Bool) (xs : List A) → All P xs → All P (select p xs)
  All-select_keep P p [] h = tt
  All-select_keep P p (x ∷ xs) h = elim (Bool-cases (p x)) [
    | inl e ↦ rw e (h.0, All-select_keep P p xs h.1)
    | inr e ↦ rw e (All-select_keep P p xs h.1)
  ]

  pub All-of_In {κ} : (P : A → Type κ) (xs : List A) → ((a : A) → In a xs → P a) → All P xs
  All-of_In P [] f = tt
  All-of_In P (x ∷ xs) f = (f x (here refl), All-of_In P xs (λ a m. f a (there m)))

  pub In-of_All {κ} : (P : A → Type κ) {a : A} (xs : List A) → All P xs → In a xs → P a
  In-of_All P [] h m = elim m [ ]
  In-of_All P (x ∷ xs) h (here e) = subst P (sym e) h.0
  In-of_All P (x ∷ xs) h (there m) = In-of_All P xs h.1 m

  pub In-select : {a : A} (p : A → Bool) (xs : List A) → In a xs → p a ≡ true → In a (select p xs)
  In-select p [] m h = elim m [ ]
  In-select p (x ∷ xs) (here e) h = rw (ap p (sym e) ∙ h) (here e)
  In-select p (x ∷ xs) (there m) h = elim (Bool-cases (p x)) [
    | inl e ↦ rw e (there (In-select p xs m h))
    | inr e ↦ rw e (In-select p xs m h)
  ]

  pub In-map {κ} : {B : Type κ} {a : A} (f : A → B) (xs : List A) → In a xs → In (f a) (map f xs)
  In-map f [] m = elim m [ ]
  In-map f (x ∷ xs) (here e) = here (ap f e)
  In-map f (x ∷ xs) (there m) = there (In-map f xs m)

  pub map_congr {κ} :
      {B : Type κ} (f g : A → B) (xs : List A)
      → ((a : A) → In a xs → f a ≡ g a)
      → map f xs ≡ map g xs
  map_congr f g [] h = refl
  map_congr f g (x ∷ xs) h =
      ap (λ b. b ∷ map f xs) (h x (here refl))
      ∙ ap (◌∷◌ (g x)) (map_congr f g xs (λ a m. h a (there m)))

  pub In-of_map {κ} :
      {B : Type κ} {b : B} (f : A → B) (xs : List A)
      → In b (map f xs)
      → (a : A) × In a xs × (b ≡ f a)
  In-of_map f [] m = elim m [ ]
  In-of_map f (x ∷ xs) (here e) = (x, here refl, e)
  In-of_map f (x ∷ xs) (there m) = let (a, n, e) = In-of_map f xs m in (a, there n, e)

  pub All-of_map {κ μ} :
      {B : Type κ} (P : B → Type μ) (f : A → B) (xs : List A)
      → All P (map f xs)
      → All (λ a. P (f a)) xs
  All-of_map P f [] h = tt
  All-of_map P f (x ∷ xs) h = (h.0, All-of_map P f xs h.1)

  pub All-last_of {κ} : (P : A → Type κ) (x : A) (xs : List A) → All P (x ∷ xs) → P (last_of x xs)
  All-last_of P x [] h = h.0
  All-last_of P x (y ∷ ys) h = All-last_of P y ys h.1

-- `itertools.chain(*lists)`
abbrev pub chain {ℓ} : {A : Type ℓ} → List (List A) → List A
chain [] = []
chain (xs ∷ more) = xs ++ chain more

-- `sum(ns)` of whole numbers.
abbrev pub total_of : List ℕ → ℕ
total_of [] = 0
total_of (n ∷ ns) = n + total_of ns

pub Ascends-snoc {ℓ κ} :
    {A : Type ℓ} (R : A → A → Type κ) (xs : List A) (y : A)
    → Ascends R xs
    → All (λ x. R x y) xs
    → Ascends R (xs ++ (y ∷ []))
Ascends-snoc R [] y h k = (tt, tt)
Ascends-snoc R (x ∷ xs) y h k =
    (All-append (R x) xs (y ∷ []) h.0 (k.0, tt), Ascends-snoc R xs y h.1 k.1)
