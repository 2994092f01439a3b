-- ===== src/RateLimit/Grants.antt =====
-- What a bucket grants, and what it never grants.
use crypto_data_aggregator.Prelude.{
  ◌≡◌, refl, subst, inl, inr, true, none, some, List, [], ◌∷◌, arith, Bool-cases,
}
use crypto_data_aggregator.Prelude.Order.{◌≼◌, lt, minimum-le}
use crypto_data_aggregator.Float.{Float, float_order, IsFloat, nought}
use crypto_data_aggregator.RateLimit.{TokenBucket, refill, acquire}

module _ {ℓ} {F : Type ℓ} ⦃fl : Float F⦄ where
  refill-tokens-le : (now : F) (b : TokenBucket F) → (refill now b).tokens ≼ b.capacity
  unfolding refill
  refill-tokens-le now b = (minimum-le b.capacity _).0

  refill-capacity : (now : F) (b : TokenBucket F) → (refill now b).capacity ≡ b.capacity
  unfolding refill
  refill-capacity now b = refl

  -- A request for more tokens than the bucket can hold is never granted, however often the clock is
  -- read: the loop waits for ever.
  pub acquire_over_capacity :
      (n : F) (clock : List F) (b : TokenBucket F)
      → lt b.capacity n ≡ true
      → (acquire n clock b).0 ≡ none
  unfolding acquire
  acquire_over_capacity n [] b h = refl
  acquire_over_capacity n (now ∷ later) b h =
      let b' = refill now b in
      let ih = acquire_over_capacity n later b' h in
      elim (Bool-cases (float_order.le n b'.tokens)) [
        | inl e ↦
            let small = float_order.le_trans n b'.tokens b.capacity e (refill-tokens-le now b) in
            absurd (ground (arith, h, small))
        | inr e ↦ rw e ih
      ]

  -- The bucket after a granted request for `n >= 0` tokens is not in debt and not above its capacity,
  -- whatever its tokens were before, and its rate and capacity are the old ones.
  pub acquire-some :
      (laws : IsFloat F) (n : F) (clock : List F) (b after : TokenBucket F)
      → nought ≼ n
      → (acquire n clock b).0 ≡ some after
      → (nought ≼ after.tokens)
        × (after.tokens ≼ b.capacity)
        × (after.capacity ≡ b.capacity)
        × (after.rate_per_sec ≡ b.rate_per_sec)
  unfolding acquire
  acquire-some laws n [] b after p e = absurd (ground (arith, e))
  acquire-some laws n (now ∷ later) b after p e =
      let b' = refill now b in
      elim (Bool-cases (float_order.le n b'.tokens)) [
        | inl t ↦
            let spent : TokenBucket F = record b' { tokens = fl.sub b'.tokens n } in
            let same : spent ≡ after = cc (rw t at e) in
            subst
              (λ (x : TokenBucket F).
                (nought ≼ x.tokens)
                × (x.tokens ≼ b.capacity)
                × (x.capacity ≡ b.capacity)
                × (x.rate_per_sec ≡ b.rate_per_sec))
              same
              (
                laws.sub_nonneg b'.tokens n t,
                float_order.le_trans _ b'.tokens b.capacity (laws.sub_le b'.tokens n p)
                    (refill-tokens-le now b),
                unfold refill in refl,
                unfold refill in refl,
              )
        | inr t ↦ unfold refill in acquire-some laws n later b' after p (rw t at e)
      ]
