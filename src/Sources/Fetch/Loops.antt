-- ===== src/Sources/Fetch/Loops.antt =====
-- The loops of requests: when they end, and what holds of all that they append.
use crypto_data_aggregator.Prelude.{
  ℕ, zero, suc, ◌+◌, ◌<◌, ◌≡◌, refl, Bool, true, Option, none, some, List, [], ◌∷◌, All, All-append,
  inl, inr, Bool-cases, arith,
}
use crypto_data_aggregator.Python.{Result, ok, raise}
use crypto_data_aggregator.Python.Results.{Ensures, holds, raises, Ensures-bind}
use crypto_data_aggregator.Sources.Fetch.{
  Parsed, skip, keep, skip_stopping, halt, Collected, collect_row, collect, Turn, prepend,
  after_turn, fetch_while, before, after_page, fetch_for,
}

-- A loop that has come to an end, with rows or with an exception.
abbrev pub HasEnded {ℓ} : {A : Type ℓ} → Option A → Type ℓ
HasEnded {A = A} o = (a : A) × (o ≡ some a)

prepend-HasEnded {ℓ} :
    {B : Type ℓ} (bs : List B) (o : Option (Result (List B))) → HasEnded o → HasEnded (prepend bs o)
prepend-HasEnded bs none (a, e) = absurd (ground (arith, e))
prepend-HasEnded bs (some (raise x)) h = (raise x, refl)
prepend-HasEnded bs (some (ok cs)) h = (ok _, refl)

module _ {ℓ κ} {B : Type ℓ} {S : Type κ} where
  after_turn-HasEnded :
      (turn : Turn B S) (k : S → Option (Result (List B)))
      → ((bs : List B) (t : S) → turn ≡ ok (bs, some t) → HasEnded (k t))
      → HasEnded (after_turn turn k)
  after_turn-HasEnded (raise e) k h = (raise e, refl)
  after_turn-HasEnded (ok (bs, none)) k h = (ok bs, refl)
  after_turn-HasEnded (ok (bs, some t)) k h = prepend-HasEnded bs (k t) (h bs t refl)

  -- A loop whose turns lower a measure ends on any fuel that is at least the measure.
  pub fetch_while-HasEnded :
      (c : S → Bool) (page : ℕ → S → Turn B S) (m : S → ℕ)
      → ((s : S) → c s ≡ true → 0 < m s)
      → ((n : ℕ) (s t : S) (bs : List B) → c s ≡ true → page n s ≡ ok (bs, some t) → m t < m s)
      → (fuel n : ℕ) (s : S) → m s < suc fuel
      → HasEnded (fetch_while c page fuel n s)
  unfolding fetch_while
  fetch_while-HasEnded c page m pos_m falls zero n s le = elim (Bool-cases (c s)) [
    | inl e ↦ absurd (omega (arith, le, pos_m s e))
    | inr e ↦ rw e (ok [], refl)
  ]
  fetch_while-HasEnded c page m pos_m falls (suc fuel) n s le = elim (Bool-cases (c s)) [
    | inl e ↦ rw e (
        after_turn-HasEnded (page n s) _ λ bs t p.
          fetch_while-HasEnded c page m pos_m falls fuel (n + 1) t
            (omega (arith, le, falls n s t bs e p)))
    | inr e ↦ rw e (ok [], refl)
  ]

module _ {ℓ κ} {B : Type ℓ} (P : B → Type κ) where
  abbrev pub KeepsOnly : Parsed B → Type κ
  KeepsOnly (keep b) = P b
  KeepsOnly skip = Unit
  KeepsOnly skip_stopping = Unit
  KeepsOnly halt = Unit

  abbrev pub AllKept : Collected B → Type κ
  AllKept r = All P r.0

  collect_row-AllKept :
      (p : Parsed B) (rest : Result (Collected B))
      → KeepsOnly p
      → Ensures AllKept rest
      → Ensures AllKept (collect_row p rest)
  collect_row-AllKept skip rest h k = k
  collect_row-AllKept (keep b) rest h k = Ensures-bind k λ r s. holds (h, s)
  collect_row-AllKept skip_stopping rest h k = Ensures-bind k λ r s. holds s
  collect_row-AllKept halt rest h k = holds tt

  pub collect-AllKept {μ} :
      {A : Type μ} (parse : ℕ → A → Result (Parsed B))
      → ((i : ℕ) (a : A) → Ensures KeepsOnly (parse i a))
      → (i : ℕ) (rows : List A) → Ensures AllKept (collect parse i rows)
  unfolding collect
  collect-AllKept parse h i [] = holds tt
  collect-AllKept parse h i (a ∷ rows) =
      Ensures-bind (h i a) λ p k. collect_row-AllKept p _ k (collect-AllKept parse h (i + 1) rows)

  abbrev pub AllAppended {μ} : {S : Type μ} → List B × Option S → Type κ
  AllAppended t = All P t.0

  before-All :
      (bs : List B) (r : Result (List B))
      → All P bs
      → Ensures (All P) r
      → Ensures (All P) (before bs r)
  before-All bs (raise e) h k = raises
  before-All bs (ok cs) h (holds k) = holds (All-append P bs cs h k)

  after_page-All {μ} :
      {S : Type μ} (turn : Turn B S) (k : S → Result (List B))
      → Ensures AllAppended turn
      → ((t : S) → Ensures (All P) (k t))
      → Ensures (All P) (after_page turn k)
  after_page-All (raise e) k h f = raises
  after_page-All (ok (bs, none)) k (holds h) f = holds h
  after_page-All (ok (bs, some t)) k (holds h) f = before-All bs (k t) h (f t)

  pub fetch_for-All {μ} :
      {S : Type μ} (page : ℕ → S → Turn B S)
      → ((n : ℕ) (s : S) → Ensures AllAppended (page n s))
      → (m n : ℕ) (s : S) → Ensures (All P) (fetch_for page m n s)
  unfolding fetch_for
  fetch_for-All page h zero n s = holds tt
  fetch_for-All page h (suc m) n s =
      after_page-All (page n s) _ (h n s) λ t. fetch_for-All page h m (n + 1) t
