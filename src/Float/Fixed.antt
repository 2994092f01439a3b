-- ===== src/Float/Fixed.antt =====
-- The laws of `Float` can be met: whole numbers of ten-thousandths, with products and quotients
-- truncated towards zero. The runs and the instances of the theorems compute with these.
use native.Mathlib.Nat.{mul-le-mul}
use crypto_data_aggregator.Prelude.{
  ℕ, suc, ◌*◌, ◌/◌, ◌^◌, ◌≤◌, ◌≡◌, true, List, [], ◌∷◌, arith, All,
}
use crypto_data_aggregator.Prelude.Int.{ℤ, pos, negsuc, sub_ℕ, ◌+ℤ◌, ◌-ℤ◌, int_order}
use crypto_data_aggregator.Prelude.Order.{◌≼◌, lt}
use crypto_data_aggregator.Float.{Float, IsFloat, nought, one, mean}

abbrev pub Fixed : Type 0
Fixed = ℤ

abbrev pub scale : ℕ
scale = 10_000

-- A whole number.
abbrev pub fixed : ℕ → Fixed
fixed n = pos (n * 10_000)

unfoldable pub mul_fixed : Fixed → Fixed → Fixed
mul_fixed (pos a) (pos b) = pos (a * b / 10_000)
mul_fixed (pos a) (negsuc b) = sub_ℕ 0 (a * suc b / 10_000)
mul_fixed (negsuc a) (pos b) = sub_ℕ 0 (suc a * b / 10_000)
mul_fixed (negsuc a) (negsuc b) = pos (suc a * suc b / 10_000)

unfoldable pub div_fixed : Fixed → Fixed → Fixed
div_fixed (pos a) (pos b) = pos (a * 10_000 / b)
div_fixed (pos a) (negsuc b) = sub_ℕ 0 (a * 10_000 / suc b)
div_fixed (negsuc a) (pos b) = sub_ℕ 0 (suc a * 10_000 / b)
div_fixed (negsuc a) (negsuc b) = pos (suc a * 10_000 / suc b)

unfoldable pub abs_fixed : Fixed → Fixed
abs_fixed (pos a) = pos a
abs_fixed (negsuc a) = pos (suc a)

unfoldable pub trunc_fixed : Fixed → ℤ
trunc_fixed (pos a) = pos (a / 10_000)
trunc_fixed (negsuc a) = sub_ℕ 0 (suc a / 10_000)

unfoldable pub sum_fixed : Fixed → List Fixed → Fixed
sum_fixed acc [] = acc
sum_fixed acc (x ∷ xs) = sum_fixed (acc +ℤ x) xs

instance abbrev pub fixed_float : Float Fixed
fixed_float = record {
  order = int_order;
  of_decimal = λ m k. pos (m * 10_000 / 10 ^ k);
  of_nat = fixed;
  add = ◌+ℤ◌;
  sub = ◌-ℤ◌;
  mul = mul_fixed;
  div = div_fixed;
  magnitude = abs_fixed;
  truncate = trunc_fixed;
  sum = sum_fixed (pos 0);
}

mean_ge_fixed : (m a b : Fixed) → m ≼ a → m ≼ b → m ≼ mean a b
unfolding ◌+ℤ◌ div_fixed
mean_ge_fixed m a b p q = ground arith

mean_le_fixed : (m a b : Fixed) → a ≼ m → b ≼ m → mean a b ≼ m
unfolding ◌+ℤ◌ div_fixed
mean_le_fixed m a b p q = ground arith

le-mul_left_fixed : (k x : Fixed) → one ≼ k → nought ≼ x → x ≼ mul_fixed k x
unfolding mul_fixed
le-mul_left_fixed (pos k) (pos x) p q =
    let big : 10_000 * x ≤ k * x = mul-le-mul (ground arith) (omega arith) in ground arith
le-mul_left_fixed (pos k) (negsuc x) p q = ground arith
le-mul_left_fixed (negsuc k) x p q = ground arith

le-mul_right_fixed : (x k : Fixed) → one ≼ k → nought ≼ x → x ≼ mul_fixed x k
unfolding mul_fixed
le-mul_right_fixed (pos x) (pos k) p q =
    let big : x * 10_000 ≤ x * k = mul-le-mul (omega arith) (ground arith) in ground arith
le-mul_right_fixed (pos x) (negsuc k) p q = ground arith
le-mul_right_fixed (negsuc x) k p q = ground arith

sum_fixed_pos :
    (acc : Fixed) (xs : List Fixed)
    → lt nought acc ≡ true
    → All (λ y. lt nought y ≡ true) xs
    → lt nought (sum_fixed acc xs) ≡ true
unfolding sum_fixed
sum_fixed_pos acc [] p h = p
sum_fixed_pos acc (x ∷ xs) p h = sum_fixed_pos (acc +ℤ x) xs (add_pos acc x p h.0) h.1
  where
    add_pos : (a b : Fixed) → lt nought a ≡ true → lt nought b ≡ true → lt nought (a +ℤ b) ≡ true
    add_pos a b p q = unfold ◌+ℤ◌ in ground arith

sum_pos_fixed :
    (x : Fixed) (xs : List Fixed)
    → All (λ y. lt nought y ≡ true) (x ∷ xs)
    → lt nought (sum_fixed (pos 0) (x ∷ xs)) ≡ true
unfolding sum_fixed ◌+ℤ◌
sum_pos_fixed x xs h = sum_fixed_pos (pos 0 +ℤ x) xs (ground arith) h.1

sub_le_fixed : (x n : Fixed) → nought ≼ n → x -ℤ n ≼ x
unfolding ◌-ℤ◌
sub_le_fixed x n p = ground arith

sub_mono_fixed : (x y n : Fixed) → x ≼ y → x -ℤ n ≼ y -ℤ n
unfolding ◌-ℤ◌
sub_mono_fixed x y n p = ground arith

sub_nonneg_fixed : (x n : Fixed) → n ≼ x → nought ≼ x -ℤ n
unfolding ◌-ℤ◌
sub_nonneg_fixed x n p = ground arith

le_add_fixed : (x n : Fixed) → nought ≼ n → x ≼ x +ℤ n
unfolding ◌+ℤ◌
le_add_fixed x n p = ground arith

pub Fixed-IsFloat : IsFloat Fixed
Fixed-IsFloat = record {
  decimal_nonneg = λ m k. ground arith;
  one-le_sigma = ground arith;
  mean_ge = mean_ge_fixed;
  mean_le = mean_le_fixed;
  le-mul_left = le-mul_left_fixed;
  le-mul_right = le-mul_right_fixed;
  sum_pos = sum_pos_fixed;
  sub_le = sub_le_fixed;
  sub_mono = sub_mono_fixed;
  sub_nonneg = sub_nonneg_fixed;
  le_add = le_add_fixed;
}
