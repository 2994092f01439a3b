-- ===== src/Consolidated/Bars/Mask.antt =====
-- `sources_mask`: which bits the loop over the surviving venues sets.
use Prim.Native.Nat.{bit_or}
use Prim.Native.String.{String}
use crypto_data_aggregator.Prelude.{
  ℕ, ◌^◌, ◌≡◌, sym, ap, ◌∙◌, subst, Bool, true, false, inl, inr, none, some, List, [], ◌∷◌, arith,
  In, here, there, Bool-cases, Option-cases, max, map, All-of_In, In-of_All, ==_iff, ◌==◌,
}
use crypto_data_aggregator.Prelude.Order.{text_order, eq, eq→≡, eq_refl}
use crypto_data_aggregator.Prelude.Bits.{bit, bit-bit_or, zero-bit, bit-pow_self, bit-pow_ne}
use crypto_data_aggregator.Prelude.Sorting.{sorted_set, In-sorted_set, All-sorted_set}
use crypto_data_aggregator.Float.{Float}
use crypto_data_aggregator.Trade.{Trade}
use crypto_data_aggregator.Symbols.{venue_bitmask_index}
use crypto_data_aggregator.Symbols.Bitmask.{
  power, bit_number, get-venue_bitmask_index, venue_bitmask_index_lem,
}
use crypto_data_aggregator.Consolidated.Bars.{
  Options, contains, bit_of, mask_loop, bar_of, venues_of,
}

abbrev pub flag : Bool → ℕ
flag true = 1
flag false = 0

-- The bit of one venue is set in the index value of that venue alone.
bit-bit_of :
    (venues : List String) (v w : String) (i : ℕ)
    → bit_number v venues ≡ some i
    → bit (bit_of (venue_bitmask_index venues) w) i ≡ flag (eq v w)
unfolding bit_of
bit-bit_of venues v w i h = elim (Option-cases (bit_number w venues)) [
  | inl n ↦
      rw (get-venue_bitmask_index w venues ∙ ap power n, bit_of)
        (zero-bit i ∙ sym (ap flag (differ n)))
  | inr (j, q) ↦
      rw (get-venue_bitmask_index w venues ∙ ap power q, bit_of)
        (elim (Bool-cases (i == j)) [
          | inl s ↦
              let same : i ≡ j = (==_iff i j).0 s in
              let names : v ≡ w =
                (venue_bitmask_index_lem venues).1 v w (2 ^ i)
                  (get-venue_bitmask_index v venues ∙ ap power h)
                  (get-venue_bitmask_index w venues ∙ ap power (q ∙ ap some (sym same))) in
              subst (λ k. bit (2 ^ k) i ≡ 1) same (bit-pow_self i)
              ∙ sym (ap flag (ap (eq v) (sym names) ∙ eq_refl v))
          | inr s ↦ bit-pow_ne j i (λ e. ground (arith, s, e)) ∙ sym (ap flag (apart j q s))
        ])
]
  where
    differ : bit_number w venues ≡ none → eq v w ≡ false
    differ n = elim (Bool-cases (eq v w)) [
      | inl e ↦ absurd (cc (sym h ∙ ap (λ x. bit_number x venues) (eq→≡ v w e) ∙ n))
      | inr e ↦ e
    ]

    apart : (j : ℕ) → bit_number w venues ≡ some j → (i == j) ≡ false → eq v w ≡ false
    apart j q s = elim (Bool-cases (eq v w)) [
      | inl e ↦ absurd (ground (arith, sym h ∙ ap (λ x. bit_number x venues) (eq→≡ v w e) ∙ q, s))
      | inr e ↦ e
    ]

mask_loop-bit :
    (venues : List String) (v : String) (i : ℕ) (kept : List String) (mask : ℕ)
    → bit_number v venues ≡ some i
    → bit (mask_loop (venue_bitmask_index venues) kept mask) i
      ≡ max (bit mask i) (flag (contains v kept))
unfolding mask_loop contains
mask_loop-bit venues v i [] mask h = omega arith
mask_loop-bit venues v i (w ∷ ws) mask h =
    let index = venue_bitmask_index venues in
    let ih = mask_loop-bit venues v i ws (bit_or mask (bit_of index w)) h in
    let here_bit = bit-bit_or mask (bit_of index w) i in
    let own = bit-bit_of venues v w i h in ground (arith, ih, here_bit, own)

contains_of_In : (v : String) (ws : List String) → In v ws → contains v ws ≡ true
unfolding contains
contains_of_In v [] m = elim m [ ]
contains_of_In v (w ∷ ws) (here e) = rw (ap (eq v) (sym e) ∙ eq_refl v)
contains_of_In v (w ∷ ws) (there m) = ground (arith, contains_of_In v ws m)

In-of_contains : (v : String) (ws : List String) → contains v ws ≡ true → In v ws
unfolding contains
In-of_contains v [] h = absurd (cc h)
In-of_contains v (w ∷ ws) h = elim (Bool-cases (eq v w)) [
  | inl e ↦ here (eq→≡ v w e)
  | inr e ↦ there (In-of_contains v ws (ground (arith, h, e)))
]

contains-sorted_set : (v : String) (ws : List String) → contains v (sorted_set ws) ≡ contains v ws
contains-sorted_set v ws = elim (Bool-cases (contains v ws)) [
  | inl e ↦ contains_of_In v (sorted_set ws) (In-sorted_set ws (In-of_contains v ws e)) ∙ sym e
  | inr e ↦ elim (Bool-cases (contains v (sorted_set ws))) [
    | inl f ↦
        let back = All-sorted_set (λ w. In w ws) ws (All-of_In (λ w. In w ws) ws (λ w m. m)) in
        let m =
          In-of_All (λ w. In w ws) (sorted_set ws) back (In-of_contains v (sorted_set ws) f) in
        absurd (cc (sym (contains_of_In v ws m) ∙ e))
    | inr f ↦ f ∙ sym e
  ]
]

module _ {ℓ} {F : Type ℓ} ⦃fl : Float F⦄ where
  -- With the index of a list of venues, the bit of a venue of that list is set in a bar's mask exactly
  -- if one of the surviving trades `t ∷ ts` is from that venue.
  pub bar_of-mask :
      (opts : Options F) (venues : List String) (now_ns sec : ℕ) (t : Trade F) (ts : List (Trade F))
      (v : String) (i : ℕ)
      → bit_number v venues ≡ some i
      → bit (bar_of opts (venue_bitmask_index venues) now_ns sec t ts).sources_mask i
        ≡ flag (contains v (map (λ u. u.venue) (t ∷ ts)))
  unfolding bar_of
  bar_of-mask opts venues now_ns sec t ts v i h =
      mask_loop-bit venues v i (venues_of (t ∷ ts)) 0 h
      ∙ omega (arith, zero-bit i, ap flag (contains-sorted_set v (map (λ u. u.venue) (t ∷ ts))))
