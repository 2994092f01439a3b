-- ===== src/Quality/Issues.antt =====
-- Lemmas on the issues of the checks.
use Prim.Native.String.{String}
use crypto_data_aggregator.Prelude.{
  ℕ, ◌≡◌, refl, inl, inr, Bool, false, List, [], ◌∷◌, ◌++◌, ◌==◌, length, select, All, All-append,
  Bool-cases,
}
use crypto_data_aggregator.Quality.{Issue, issue_if, Severity}

pub none_selected {ℓ} :
    {A : Type ℓ} (p : A → Bool) (xs : List A) → All (λ x. p x ≡ false) xs → length (select p xs) ≡ 0
none_selected p [] h = refl
none_selected p (x ∷ xs) h = rw h.0 (none_selected p xs h.1)

-- Every issue is of a check that satisfies `P`.
pub data Named {ℓ κ} {F : Type ℓ} (P : String → Type κ) : List (Issue F) → Type (ℓ ⊔ κ) where
  named : {issues : List (Issue F)} → All (λ i. P i.check) issues → Named P issues

module _ {ℓ κ} {F : Type ℓ} {P : String → Type κ} where
  pub All-of_Named : {issues : List (Issue F)} → Named P issues → All (λ i. P i.check) issues
  All-of_Named (named h) = h

  pub Named-nil : Named {F = F} P []
  Named-nil = named tt

  pub Named-append : {xs ys : List (Issue F)} → Named P xs → Named P ys → Named P (xs ++ ys)
  Named-append (named {issues = xs} h) (named {issues = ys} k) = named (All-append _ xs ys h k)

  -- What `issue_if` puts out is under the name it is given.
  pub Named-issue_if :
      (n : ℕ) (check : String) (severity : Severity) (detail : String)
      → P check
      → Named {F = F} P (issue_if n check severity detail)
  unfolding issue_if
  Named-issue_if n check severity detail p = elim (Bool-cases (n == 0)) [
    | inl e ↦ rw e (named tt)
    | inr e ↦ rw e (named (p, tt))
  ]

-- Nothing comes of a count of zero.
pub issue_if-zero {ℓ} :
    (F : Type ℓ) (n : ℕ) (check : String) (severity : Severity) (detail : String)
    → n ≡ 0
    → issue_if {F = F} n check severity detail ≡ []
unfolding issue_if
issue_if-zero F n check severity detail h = rw h
