-- ===== src/Float.antt =====
-- Python's `float`, which the program computes with and does not implement: the operations that the
-- modelled code uses, and the laws that the theorems rely on. The carrier stands for the doubles other
-- than NaN, with 0.0 and -0.0 as one value; the code's NaN results are modelled as `none`. The laws are
-- those of IEEE 754 arithmetic with rounding to nearest (every operation is monotone, and halving is
-- exact), away from overflow; nothing assumes that sums or products are exact.
pub mod Fixed
use crypto_data_aggregator.Prelude.{ℕ, ◌≡◌, true, List, ◌∷◌, All}
use crypto_data_aggregator.Prelude.Int.{ℤ}
use crypto_data_aggregator.Prelude.Order.{Order, ◌≼◌, lt}

pub record Float {ℓ} (F : Type ℓ) : Type ℓ where
  -- `<=` and with it `<`, `==`, `max`, `min` and sorting.
  pub order : Order F
  -- `of_decimal m k` is the literal m * 10^-k: `of_decimal 14826 4` is 1.4826.
  pub of_decimal : ℕ → ℕ → F
  pub of_nat : ℕ → F
  pub add : F → F → F
  pub sub : F → F → F
  pub mul : F → F → F
  pub div : F → F → F
  -- `abs(x)`
  pub magnitude : F → F
  -- `int(x)`
  pub truncate : F → ℤ
  -- `sum(xs)`, which since Python 3.12 is no plain loop over `+`.
  pub sum : List F → F

instance abbrev pub float_order {ℓ} : {F : Type ℓ} ⦃fl : Float F⦄ → Order F
float_order ⦃fl⦄ = fl.order

module _ {ℓ} {F : Type ℓ} ⦃fl : Float F⦄ where
  abbrev pub nought : F
  nought = fl.of_decimal 0 0

  abbrev pub one : F
  one = fl.of_decimal 1 0

  -- `(a + b) / 2`, as `statistics.median` has it.
  abbrev pub mean : F → F → F
  mean a b = fl.div (fl.add a b) (fl.of_nat 2)

pub record IsFloat {ℓ} (F : Type ℓ) ⦃fl : Float F⦄ : Type ℓ where
  -- A literal with a larger mantissa is no smaller.
  pub decimal_nonneg : (m k : ℕ) → nought ≼ fl.of_decimal m k
  -- `1 <= 1.4826`, the factor from a MAD to a sigma.
  pub one-le_sigma : one ≼ fl.of_decimal 14826 4
  -- What bounds both numbers bounds their mean.
  pub mean_ge : (m a b : F) → m ≼ a → m ≼ b → m ≼ mean a b
  pub mean_le : (m a b : F) → a ≼ m → b ≼ m → mean a b ≼ m
  -- Scaling a non-negative number by one or more does not shrink it.
  pub le-mul_left : (k x : F) → one ≼ k → nought ≼ x → x ≼ fl.mul k x
  pub le-mul_right : (x k : F) → one ≼ k → nought ≼ x → x ≼ fl.mul x k
  -- A sum of positive numbers is positive.
  pub sum_pos :
      (x : F) (xs : List F)
      → All (λ y. lt nought y ≡ true) (x ∷ xs)
      → lt nought (fl.sum (x ∷ xs)) ≡ true
  -- Taking away a number that is not negative gives no more, taking it from less gives no more, and no
  -- more than all leaves no debt.
  pub sub_le : (x n : F) → nought ≼ n → fl.sub x n ≼ x
  pub sub_mono : (x y n : F) → x ≼ y → fl.sub x n ≼ fl.sub y n
  pub sub_nonneg : (x n : F) → n ≼ x → nought ≼ fl.sub x n
  -- Adding a number that is not negative gives no less.
  pub le_add : (x n : F) → nought ≼ n → x ≼ fl.add x n
