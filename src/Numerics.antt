-- ===== src/Numerics.antt =====
-- What the quality checks take from NumPy and pandas, from `round` and from the formats of f-strings: parameters,
-- since none of it is code of the repository. `joined` is the f-string of its parts.
pub mod Samples
use Prim.Native.String.{String}
use crypto_data_aggregator.Prelude.{ℕ, List}
use crypto_data_aggregator.Prelude.Int.{ℤ}
use crypto_data_aggregator.Trade.{Bar}

pub record Numerics {ℓ} (F : Type ℓ) : Type ℓ where
  -- A column of integers as floats.
  pub of_int : ℤ → F
  -- `np.percentile(xs, 99)`, and `np.nanpercentile` without the NaNs.
  pub percentile_99 : List F → F
  -- `round(x, k)`, with `x` last.
  pub round_to : ℕ → F → F
  -- `df.sort_values("ts_ns")`, which leaves the order of equal times open.
  pub sort_values : List (Bar F) → List (Bar F)
  -- `f"{n}"`, and `f"{x:.kf}"` with `x` last.
  pub digits : ℕ → String
  pub places : ℕ → F → String
  pub joined : List String → String
