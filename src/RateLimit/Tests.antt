-- ===== src/RateLimit/Tests.antt =====
-- Runs of a bucket, and its theorems at concrete inputs.
use crypto_data_aggregator.Prelude.{◌≡◌, refl, none, some, [], ◌∷◌}
use crypto_data_aggregator.Prelude.Int.{◌+ℤ◌, ◌-ℤ◌}
use crypto_data_aggregator.Prelude.Order.{minimum, maximum}
use crypto_data_aggregator.Float.{float_order}
use crypto_data_aggregator.Float.Fixed.{Fixed, fixed, fixed_float, mul_fixed, div_fixed}
use crypto_data_aggregator.RateLimit.{TokenBucket, per_minute, refill, acquire}
use crypto_data_aggregator.RateLimit.Grants.{acquire_over_capacity}

abbrev one_per_sec : TokenBucket Fixed
one_per_sec = record {
  rate_per_sec = fixed 1;
  capacity = fixed 2;
  tokens = fixed 0;
  last_refill = fixed 10;
}

abbrev after_wait : TokenBucket Fixed
after_wait = record {
  rate_per_sec = fixed 1;
  capacity = fixed 2;
  tokens = fixed 1;
  last_refill = fixed 13;
}

fresh :
    per_minute (fixed 60) none (fixed 0)
    ≡ record { rate_per_sec = fixed 1; capacity = fixed 2; tokens = fixed 2; last_refill = fixed 0 }
unfolding per_minute mul_fixed div_fixed maximum
fresh = refl

waits_a_round :
    acquire (fixed 1) (fixed 10 ∷ fixed 13 ∷ []) one_per_sec ≡ (some after_wait, fixed 1 ∷ [])
unfolding acquire refill mul_fixed div_fixed ◌+ℤ◌ ◌-ℤ◌ minimum
waits_a_round = refl

acquire_over_capacity_example : (acquire (fixed 3) (fixed 11 ∷ fixed 100 ∷ []) one_per_sec).0 ≡ none
acquire_over_capacity_example =
    acquire_over_capacity (fixed 3) (fixed 11 ∷ fixed 100 ∷ []) one_per_sec refl
