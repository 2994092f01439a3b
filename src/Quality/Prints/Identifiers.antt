-- ===== src/Quality/Prints/Identifiers.antt =====
-- How many trade identifiers `check_trade_invariants` counts as repeated.
use Prim.Native.String.{String}
use crypto_data_aggregator.Prelude.{
  ℕ, suc, ◌+◌, ◌≡◌, refl, inl, inr, Bool, true, false, ◌||◌, List, [], ◌∷◌, arith, length,
  if◌then◌else◌, All, In, here, there, Bool-cases,
}
use crypto_data_aggregator.Prelude.Order.{text_order, eq, eq→≡}
use crypto_data_aggregator.Prelude.Sorting.{
  sorted_set, length-sorted_set_old, length-sorted_set_new,
}
use crypto_data_aggregator.Quality.Prints.{repeats}

-- Whether a text stands in a list.
unfoldable pub stands_in : String → List String → Bool
stands_in x [] = false
stands_in x (y ∷ ys) = eq x y || stands_in x ys

-- The number of places whose text stands again further on.
unfoldable pub said_again : List String → ℕ
unfolding stands_in
said_again [] = 0
said_again (x ∷ xs) = if stands_in x xs then suc (said_again xs) else said_again xs

stands_in-In : (x : String) (ys : List String) → stands_in x ys ≡ true → In x ys
unfolding stands_in
stands_in-In x [] h = absurd (ground (arith, h))
stands_in-In x (y ∷ ys) h = elim (Bool-cases (eq x y)) [
  | inl e ↦ here (eq→≡ x y e)
  | inr e ↦ there (stands_in-In x ys (rw e at h))
]

stands_in-All :
    (x : String) (ys : List String) → stands_in x ys ≡ false → All (λ y. eq x y ≡ false) ys
unfolding stands_in
stands_in-All x [] h = tt
stands_in-All x (y ∷ ys) h = elim (Bool-cases (eq x y)) [
  | inl e ↦ absurd (ground (arith, h, e))
  | inr e ↦ (e, stands_in-All x ys (rw e at h))
]

set_and_repeats : (ids : List String) → said_again ids + length (sorted_set ids) ≡ length ids
unfolding said_again
set_and_repeats [] = unfold sorted_set in refl
set_and_repeats (x ∷ xs) = elim (Bool-cases (stands_in x xs)) [
  | inl e ↦
      rw e (omega (arith, set_and_repeats xs, length-sorted_set_old x xs (stands_in-In x xs e)))
  | inr e ↦
      rw e (omega (arith, set_and_repeats xs, length-sorted_set_new x xs (stands_in-All x xs e)))
]

-- The count of `trade.duplicate_trade_id` is the number of identifiers that stand again further on.
pub repeats-said_again : (ids : List String) → repeats ids ≡ said_again ids
unfolding repeats
repeats-said_again ids = omega (arith, set_and_repeats ids)
