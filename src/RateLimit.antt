-- ===== src/RateLimit.antt =====
-- cryptodata/core/ratelimit.py: the token bucket of each venue. The readings of `time.monotonic` are an
-- argument, one for each round of the waiting loop; the rate is not zero.
pub mod Grants
mod Tests
use Prim.Native.String.{String}
use crypto_data_aggregator.Prelude.{Option, none, some, List, [], ◌∷◌, if◌then◌else◌}
use crypto_data_aggregator.Prelude.Order.{text_order, minimum, maximum}
use crypto_data_aggregator.Prelude.Dict.{get, put}
use crypto_data_aggregator.Float.{Float, float_order, one}

pub record TokenBucket {ℓ} (F : Type ℓ) : Type ℓ where
  pub rate_per_sec : F
  pub capacity : F
  pub tokens : F
  pub last_refill : F

module _ {ℓ} {F : Type ℓ} ⦃fl : Float F⦄ where
  abbrev pub burst_or : F → Option F → F
  burst_or rate none = maximum one (fl.mul rate (fl.of_nat 2) ∷ [])
  burst_or rate (some burst) = burst

  unfoldable pub per_minute : F → Option F → F → TokenBucket F
  per_minute requests_per_minute burst now =
      let rate = fl.div requests_per_minute (fl.of_nat 60) in
      let cap = burst_or rate burst in
      record { rate_per_sec = rate; capacity = cap; tokens = cap; last_refill = now }

  -- The update of the tokens at the top of the loop.
  unfoldable pub refill : F → TokenBucket F → TokenBucket F
  refill now b = record b {
    tokens =
        minimum b.capacity
          (fl.add b.tokens (fl.mul (fl.sub now b.last_refill) b.rate_per_sec) ∷ []);
    last_refill = now;
  }

  -- How the wait for `n` tokens stands when the readings are used up: granted, with the bucket after it,
  -- or not yet; and the pauses that it asked for.
  unfoldable pub acquire : F → List F → TokenBucket F → Option (TokenBucket F) × List F
  unfolding refill
  acquire n [] b = (none, [])
  acquire n (now ∷ later) b =
      let b' = refill now b in
      let (granted, pauses) = acquire n later b' in
      if float_order.le n b'.tokens
      then (some (record b' { tokens = fl.sub b'.tokens n }), [])
      else (granted, fl.div (fl.sub n b'.tokens) b'.rate_per_sec ∷ pauses)

  abbrev pub rpm_or_default : Option F → F
  rpm_or_default none = fl.of_nat 60
  rpm_or_default (some rpm) = rpm

  abbrev pub bucket_or_new :
      String
      → Option F
      → F
      → List (String × TokenBucket F)
      → Option (TokenBucket F)
      → TokenBucket F × List (String × TokenBucket F)
  bucket_or_new venue rpm now buckets none =
      let b = per_minute (rpm_or_default rpm) none now in (b, put venue b buckets)
  bucket_or_new venue rpm now buckets (some b) = (b, buckets)

  -- `RateLimiterRegistry.get`, with the venue's `rest_requests_per_minute` of `venues.toml`.
  unfoldable pub get_bucket :
      String
      → Option F
      → F
      → List (String × TokenBucket F)
      → TokenBucket F × List (String × TokenBucket F)
  unfolding per_minute
  get_bucket venue rpm now buckets = bucket_or_new venue rpm now buckets (get venue buckets)
