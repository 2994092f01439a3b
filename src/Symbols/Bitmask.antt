-- ===== src/Symbols/Bitmask.antt =====
-- The bits that `venue_bitmask_index` gives out.
use Prim.Native.String.{String}
use crypto_data_aggregator.Prelude.{
  ℕ, ◌+◌, ◌^◌, ◌≤◌, ◌≡◌, refl, sym, ap, ◌∙◌, inl, inr, Option, none, some, List, [], ◌∷◌, arith,
  if◌then◌else◌, ==_iff, ◌==◌, In, here, there, Bool-cases,
}
use crypto_data_aggregator.Prelude.Bits.{bit, bit-pow_self, bit-pow_ne}
use crypto_data_aggregator.Prelude.Order.{text_order, eq, eq→≡, eq_refl}
use crypto_data_aggregator.Prelude.Dict.{get}
use crypto_data_aggregator.Prelude.Sorting.{sorted_set, In-sorted_set}
use crypto_data_aggregator.Symbols.{enumerate_bits, venue_bitmask_index}

-- The first position of `v`, counted from `k`.
unfoldable pub position : String → ℕ → List String → Option ℕ
position v k [] = none
position v k (w ∷ ws) = if eq w v then some k else position v (k + 1) ws

abbrev pub power : Option ℕ → Option ℕ
power none = none
power (some i) = some (2 ^ i)

get-enumerate_bits :
    (v : String) (k : ℕ) (vs : List String) → get v (enumerate_bits k vs) ≡ power (position v k vs)
unfolding get enumerate_bits position
get-enumerate_bits v k [] = refl
get-enumerate_bits v k (w ∷ ws) = elim (Bool-cases (eq w v)) [
  | inl e ↦ rw e
  | inr e ↦ rw e (get-enumerate_bits v (k + 1) ws)
]

le-position : (v : String) (k : ℕ) (vs : List String) (i : ℕ) → position v k vs ≡ some i → k ≤ i
unfolding position
le-position v k [] i h = cc
le-position v k (w ∷ ws) i h = ground (arith, le-position v (k + 1) ws i)

pub position-injective :
    (v w : String) (k : ℕ) (vs : List String) (i : ℕ)
    → position v k vs ≡ some i
    → position w k vs ≡ some i
    → v ≡ w
unfolding position
position-injective v w k [] i h g = cc
position-injective v w k (u ∷ us) i h g = elim (Bool-cases (eq u v)) [
  | inl e ↦ elim (Bool-cases (eq u w)) [
    | inl f ↦ sym (eq→≡ u v e) ∙ eq→≡ u w f
    | inr f ↦ absurd (ground (arith, le-position w (k + 1) us i, h, g, e, f))
  ]
  | inr e ↦ elim (Bool-cases (eq u w)) [
    | inl f ↦ absurd (ground (arith, le-position v (k + 1) us i, h, g, e, f))
    | inr f ↦ position-injective v w (k + 1) us i (ground (arith, h, e)) (ground (arith, g, f))
  ]
]

In-position :
    {v : String} (k : ℕ) (vs : List String) → In v vs → (i : ℕ) × (position v k vs ≡ some i)
unfolding position
In-position k [] m = elim m [ ]
In-position {v} k (w ∷ ws) (here e) = (k, rw (ap (λ x. eq x v) (sym e) ∙ eq_refl v))
In-position {v} k (w ∷ ws) (there m) = elim (Bool-cases (eq w v)) [
  | inl e ↦ (k, rw e)
  | inr e ↦ let (i, q) = In-position (k + 1) ws m in (i, rw e q)
]

-- The number of the bit of a venue.
unfoldable pub bit_number : String → List String → Option ℕ
unfolding position
bit_number v venues = position v 0 (sorted_set venues)

pub get-venue_bitmask_index :
    (v : String) (venues : List String)
    → get v (venue_bitmask_index venues) ≡ power (bit_number v venues)
unfolding venue_bitmask_index bit_number
get-venue_bitmask_index v venues = get-enumerate_bits v 0 (sorted_set venues)

same_power : (i j : ℕ) → 2 ^ i ≡ 2 ^ j → i ≡ j
same_power i j e = elim (Bool-cases (i == j)) [
  | inl t ↦ (==_iff i j).0 t
  | inr t ↦ absurd (
      omega
        (arith, bit-pow_ne i j (λ q. ground (arith, t, q)), bit-pow_self j, ap (λ m. bit m j) e))
]

-- Whether a venue has a bit, and the number of it.
power_cases : (o : Option ℕ) (m : ℕ) → power o ≡ some m → (i : ℕ) × ((o ≡ some i) × (2 ^ i ≡ m))
power_cases none m e = cc
power_cases (some i) m e = (i, (refl, cc))

-- Every venue of the list has a bit of its own in the index: its entry is a power of two, and no other
-- venue has the same entry.
pub venue_bitmask_index_lem :
    (venues : List String)
    → ((v : String) → In v venues → (i : ℕ) × (get v (venue_bitmask_index venues) ≡ some (2 ^ i)))
      × ((v w : String) (m : ℕ)
          → get v (venue_bitmask_index venues) ≡ some m
          → get w (venue_bitmask_index venues) ≡ some m
          → v ≡ w)
unfolding bit_number
venue_bitmask_index_lem venues = (
  λ v m.
      let (i, q) = In-position 0 (sorted_set venues) (In-sorted_set venues m) in
      (i, get-venue_bitmask_index v venues ∙ ap power q),
  λ v w m p q.
      let (i, (at_v, pv)) =
        power_cases (bit_number v venues) m (sym (get-venue_bitmask_index v venues) ∙ p) in
      let (j, (at_w, pw)) =
        power_cases (bit_number w venues) m (sym (get-venue_bitmask_index w venues) ∙ q) in
      let same : j ≡ i = same_power j i (pw ∙ sym pv) in
      position-injective v w 0 (sorted_set venues) i at_v (at_w ∙ ap some same),
)
