-- ===== src/Python/Results.antt =====
-- Postconditions of code that may raise.
use crypto_data_aggregator.Prelude.{◌≡◌, subst, Option, none, some}
use crypto_data_aggregator.Python.{Result, ok, raise, Exception, ◌>>=◌}

-- `P` holds of the value, if there is one.
pub data Ensures {ℓ κ} {A : Type ℓ} (P : A → Type κ) : Result A → Type (ℓ ⊔ κ) where
  holds : {a : A} → P a → Ensures P (ok a)
  raises : {e : Exception} → Ensures P (raise e)

abbrev pub IsNoneOr {ℓ κ} : {A : Type ℓ} → (A → Type κ) → Option A → Type κ
IsNoneOr P none = Unit
IsNoneOr P (some a) = P a

module _ {ℓ κ μ} {A : Type ℓ} {B : Type κ} {Q : B → Type μ} where
  -- A step of which nothing is to be known.
  pub Ensures-read :
      (r : Result A) {f : A → Result B} → ((a : A) → Ensures Q (f a)) → Ensures Q (r >>= f)
  unfolding ◌>>=◌
  Ensures-read (ok a) k = k a
  Ensures-read (raise e) k = raises

  pub Ensures-bind {ρ} :
      {P : A → Type ρ} {r : Result A} {f : A → Result B}
      → Ensures P r
      → ((a : A) → P a → Ensures Q (f a))
      → Ensures Q (r >>= f)
  unfolding ◌>>=◌
  Ensures-bind (holds {a} h) k = k a h
  Ensures-bind raises k = raises

pub IsNoneOr-imp {ℓ κ μ} :
    {A : Type ℓ} {P : A → Type κ} {Q : A → Type μ} (r : Result (Option A))
    → ((a : A) → P a → Q a)
    → Ensures (IsNoneOr P) r
    → Ensures (IsNoneOr Q) r
IsNoneOr-imp (raise e) f h = raises
IsNoneOr-imp (ok none) f h = holds tt
IsNoneOr-imp (ok (some a)) f (holds h) = holds (f a h)

pub Ensures-ok {ℓ κ} :
    {A : Type ℓ} {P : A → Type κ} {r : Result A} {a : A} → r ≡ ok a → Ensures P r → P a
Ensures-ok {A = A} {P = P} {a = a} e h = of_ok a (subst (Ensures P) e h)
  where
    of_ok : (b : A) → Ensures P (ok b) → P b
    of_ok b (holds p) = p
