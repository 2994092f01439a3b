-- ===== src/Prelude/Order.antt =====
-- Total orders as Boolean tests: what `<`, `<=`, `min`, `max` and the comparison of tuples and of
-- `str` rely on. Instances: the natural numbers, texts (by code points) and pairs.
use Prim.Native.Char.{code}
use Prim.Native.String.{String}
use crypto_data_aggregator.Prelude.Tests.{ltb, leb, if◌then◌else◌, Bool-cases}
use crypto_data_aggregator.Prelude.Lists.{All, In, here, there}
use Prim.Native.Nat.{ℕ}
use mathlib.Core.Path.{◌≡◌, refl, sym, ap, ◌∙◌, ap₂}
use mathlib.Core.Logic.{◌≢◌, ◌⊎◌, inl, inr}
use mathlib.Core.Bool.{Bool, true, false, not, ◌&&◌, ◌||◌}
use mathlib.Core.List.{List, [], ◌∷◌}
use text.Mathlib.TextEquality.{Char-path}
use native.Mathlib.Omega.{arith}

pub record Order {ℓ} (A : Type ℓ) : Type ℓ where
  pub le : A → A → Bool
  pub le_trans : (a b c : A) → le a b ≡ true → le b c ≡ true → le a c ≡ true
  pub le_total : (a b : A) → (le a b ≡ true) ⊎ (le b a ≡ true)
  pub le_antisymm : (a b : A) → le a b ≡ true → le b a ≡ true → a ≡ b

-- The other way round, as `sorted(xs, reverse=True)` compares.
abbrev pub descending {ℓ} : {A : Type ℓ} → Order A → Order A
descending o = record {
  le = λ a b. o.le b a;
  le_trans = λ a b c p q. o.le_trans c b a q p;
  le_total = λ a b. o.le_total b a;
  le_antisymm = λ a b p q. o.le_antisymm a b q p;
}

module _ {ℓ} {A : Type ℓ} ⦃o : Order A⦄ where
  infix 4 ◌≼◌
  abbrev pub ◌≼◌ : A → A → Type 0
  a ≼ b = o.le a b ≡ true

  -- `a < b`, `a > b` and `a == b` of a total order.
  abbrev pub lt : A → A → Bool
  lt a b = not (o.le b a)

  abbrev pub gt : A → A → Bool
  gt a b = not (o.le a b)

  abbrev pub eq : A → A → Bool
  eq a b = o.le a b && o.le b a

  pub ≼_refl : (a : A) → a ≼ a
  ≼_refl a = elim (o.le_total a a) [ inl h ↦ h | inr h ↦ h ]

  pub eq→≡ : (a b : A) → eq a b ≡ true → a ≡ b
  eq→≡ a b h = o.le_antisymm a b (ground arith) (ground arith)

  pub eq_refl : (a : A) → eq a a ≡ true
  eq_refl a = rw (≼_refl a)

  pub ≢_of_eq : (a b : A) → eq a b ≡ false → a ≢ b
  ≢_of_eq a b h e = absurd (ground (arith, h, ap (eq a) (sym e) ∙ eq_refl a))

  pub ≼_of_not-≼ : (a b : A) → o.le a b ≡ false → b ≼ a
  ≼_of_not-≼ a b h = ground (arith, o.le_total a b)

  pub ≼_of_lt : (a b : A) → lt a b ≡ true → a ≼ b
  ≼_of_lt a b h = ground (arith, o.le_total a b)

  pub ≼_of_not-lt : (a b : A) → lt a b ≡ false → b ≼ a
  ≼_of_not-lt a b h = ground arith

  -- `max(x, *xs)` and `min(x, *xs)`: a later element is taken only if it is strictly beyond.
  unfoldable pub maximum : A → List A → A
  maximum x [] = x
  maximum x (y ∷ ys) = maximum (if gt y x then y else x) ys

  unfoldable pub minimum : A → List A → A
  minimum x [] = x
  minimum x (y ∷ ys) = minimum (if lt y x then y else x) ys

  pub In-minimum : (x : A) (xs : List A) → In (minimum x xs) (x ∷ xs)
  unfolding minimum
  In-minimum x [] = here refl
  In-minimum x (y ∷ ys) = elim (Bool-cases (lt y x)) [
    | inl e ↦ rw e (there (In-minimum y ys))
    | inr e ↦ rw e (skip_second (minimum x ys) x y ys (In-minimum x ys))
  ]
    where
      skip_second : (a x y : A) (ys : List A) → In a (x ∷ ys) → In a (x ∷ y ∷ ys)
      skip_second a x y ys (here e) = here e
      skip_second a x y ys (there m) = there (there m)

  pub maximum-le_bound : (x y bound : A) → x ≼ bound → y ≼ bound → maximum x (y ∷ []) ≼ bound
  unfolding maximum
  maximum-le_bound x y bound p q = elim (Bool-cases (o.le y x)) [ inl e ↦ rw e p | inr e ↦ rw e q ]

  pub bound-le_minimum : (x y bound : A) → bound ≼ x → bound ≼ y → bound ≼ minimum x (y ∷ [])
  unfolding minimum
  bound-le_minimum x y bound p q = elim (Bool-cases (o.le x y)) [ inl e ↦ rw e p | inr e ↦ rw e q ]

  pub le-maximum : (x : A) (xs : List A) → (x ≼ maximum x xs) × All (λ y. y ≼ maximum x xs) xs
  unfolding maximum
  le-maximum x [] = (≼_refl x, tt)
  le-maximum x (y ∷ ys) =
      let best = if gt y x then y else x in
      let (up, rest) = le-maximum best ys in
      (
        o.le_trans x best _ (ground (arith, o.le_total x y, ≼_refl x)) up,
        (o.le_trans y best _ (ground (arith, ≼_refl y)) up, rest),
      )

  pub minimum-le : (x : A) (xs : List A) → (minimum x xs ≼ x) × All (λ y. minimum x xs ≼ y) xs
  unfolding minimum
  minimum-le x [] = (≼_refl x, tt)
  minimum-le x (y ∷ ys) =
      let best = if lt y x then y else x in
      let (down, rest) = minimum-le best ys in
      (
        o.le_trans _ best x down (ground (arith, o.le_total x y, ≼_refl x)),
        (o.le_trans _ best y down (ground (arith, ≼_refl y)), rest),
      )

pub leb_trans : (a b c : ℕ) → leb a b ≡ true → leb b c ≡ true → leb a c ≡ true
leb_trans a b c p q = ground arith

pub leb_total : (a b : ℕ) → (leb a b ≡ true) ⊎ (leb b a ≡ true)
leb_total a b = ground arith

pub leb_antisymm : (a b : ℕ) → leb a b ≡ true → leb b a ≡ true → a ≡ b
leb_antisymm a b p q = ground arith

instance abbrev pub nat_order : Order ℕ
nat_order = record {
  le = leb;
  le_trans = leb_trans;
  le_total = leb_total;
  le_antisymm = leb_antisymm;
}

-- `s <= t` on `str`: by code points, a prefix first.
unfoldable pub text_le : String → String → Bool
text_le String.[] t = true
text_le (String.◌∷◌ c s) String.[] = false
text_le (String.◌∷◌ c s) (String.◌∷◌ d t) =
    ltb (code c) (code d) || (leb (code c) (code d) && text_le s t)

pub text_le_trans : (a b c : String) → text_le a b ≡ true → text_le b c ≡ true → text_le a c ≡ true
unfolding text_le
text_le_trans String.[] b c p q = refl
text_le_trans (String.◌∷◌ x a) String.[] c p q = cc
text_le_trans (String.◌∷◌ x a) (String.◌∷◌ y b) String.[] p q = cc
text_le_trans (String.◌∷◌ x a) (String.◌∷◌ y b) (String.◌∷◌ z c) p q =
    ground (arith, text_le_trans a b c)

pub text_le_total : (a b : String) → (text_le a b ≡ true) ⊎ (text_le b a ≡ true)
unfolding text_le
text_le_total String.[] b = inl refl
text_le_total (String.◌∷◌ x a) String.[] = inr refl
text_le_total (String.◌∷◌ x a) (String.◌∷◌ y b) = ground (arith, text_le_total a b)

pub text_le_antisymm : (a b : String) → text_le a b ≡ true → text_le b a ≡ true → a ≡ b
unfolding text_le
text_le_antisymm String.[] String.[] p q = refl
text_le_antisymm String.[] (String.◌∷◌ y b) p q = cc
text_le_antisymm (String.◌∷◌ x a) String.[] p q = cc
text_le_antisymm (String.◌∷◌ x a) (String.◌∷◌ y b) p q =
    ap₂ String.◌∷◌ (Char-path x y (ground arith))
      (text_le_antisymm a b (ground arith) (ground arith))

instance abbrev pub text_order : Order String
text_order = record {
  le = text_le;
  le_trans = text_le_trans;
  le_total = text_le_total;
  le_antisymm = text_le_antisymm;
}

-- Tuples: by the first component, and by the second where the first agree.
module _ {ℓ κ} {A : Type ℓ} {B : Type κ} ⦃o : Order A⦄ ⦃u : Order B⦄ where
  unfoldable pub pair_le : A × B → A × B → Bool
  pair_le (a, b) (c, d) = o.le a c && (not (o.le c a) || u.le b d)

  pub pair_le_trans : (a b c : A × B) → pair_le a b ≡ true → pair_le b c ≡ true → pair_le a c ≡ true
  unfolding pair_le
  pair_le_trans (a, x) (b, y) (c, z) p q =
      ground (arith, o.le_trans a b c, o.le_trans c a b, o.le_trans b c a, u.le_trans x y z)

  pub pair_le-fst : (a b : A × B) → pair_le a b ≡ true → o.le a.0 b.0 ≡ true
  unfolding pair_le
  pair_le-fst (a, x) (b, y) p = ground arith

  pub pair_le_total : (a b : A × B) → (pair_le a b ≡ true) ⊎ (pair_le b a ≡ true)
  unfolding pair_le
  pair_le_total (a, x) (b, y) = ground (arith, o.le_total a b, u.le_total x y)

  pub pair_le_antisymm : (a b : A × B) → pair_le a b ≡ true → pair_le b a ≡ true → a ≡ b
  unfolding pair_le
  pair_le_antisymm (a, x) (b, y) p q =
      let e : a ≡ b = o.le_antisymm a b (ground arith) (ground arith) in
      let f : x ≡ y = u.le_antisymm x y (ground arith) (ground arith) in λ i. (e i, f i)

  instance abbrev pub pair_order : Order (A × B)
  pair_order = record {
    le = pair_le;
    le_trans = pair_le_trans;
    le_total = pair_le_total;
    le_antisymm = pair_le_antisymm;
  }
