-- ===== src/Quality/Checks/Sorted.antt =====
-- The order of the issues that `run_checks` returns.
use crypto_data_aggregator.Prelude.{◌≤◌, ◌≡◌, true, List, Perm, All-imp, Ascends, [], ◌∷◌, arith}
use crypto_data_aggregator.Prelude.Int.{int_order}
use crypto_data_aggregator.Prelude.Order.{text_order, pair_order, pair_le, ◌≼◌}
use crypto_data_aggregator.Prelude.Keyed.{sorted_by-Ascends, sorted_by-perm}
use crypto_data_aggregator.Float.{Float}
use crypto_data_aggregator.Numerics.{Numerics}
use crypto_data_aggregator.Quality.{Issue}
use crypto_data_aggregator.Quality.Checks.{Frames, rank_of, issue_key, all_issues, run_checks}

Ascends-imp {ℓ κ μ} :
    {A : Type ℓ} {R : A → A → Type κ} {S : A → A → Type μ}
    → ((a b : A) → R a b → S a b)
    → (xs : List A) → Ascends R xs
    → Ascends S xs
Ascends-imp f [] h = tt
Ascends-imp f (x ∷ xs) h = (All-imp (f x) xs h.0, Ascends-imp f xs h.1)

module _ {ℓ} {F : Type ℓ} ⦃fl : Float F⦄ ⦃nm : Numerics F⦄ where
  -- `b` is no more severe than `a`, and where both are as severe, its check is not earlier in the
  -- alphabet.
  abbrev pub NotBefore : Issue F → Issue F → Type 0
  NotBefore a b =
      (rank_of b.severity ≤ rank_of a.severity)
      × (rank_of a.severity ≡ rank_of b.severity → text_order.le a.check b.check ≡ true)

  key-NotBefore : (a b : Issue F) → issue_key a ≼ issue_key b → NotBefore a b
  unfolding pair_le
  key-NotBefore a b h = (ground (arith, h), λ e. ground (arith, h, e))

  -- `run_checks` returns exactly the issues that the checks find, the most severe first, and issues of
  -- one severity by the name of their check.
  pub run_checks-sorted :
      (frames : Frames F)
      → Perm (run_checks frames) (all_issues frames) × Ascends NotBefore (run_checks frames)
  unfolding run_checks
  run_checks-sorted frames = (
    sorted_by-perm issue_key (all_issues frames),
    Ascends-imp key-NotBefore _ (sorted_by-Ascends issue_key (all_issues frames)),
  )
