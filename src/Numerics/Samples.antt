-- ===== src/Numerics/Samples.antt =====
-- Python's and NumPy's functions on the concrete numbers of the examples; formats and rounding are left
-- plain.
use crypto_data_aggregator.Prelude.{List, [], ◌∷◌, last_of}
use crypto_data_aggregator.Prelude.Order.{nat_order}
use crypto_data_aggregator.Prelude.Keyed.{sorted_by}
use crypto_data_aggregator.Float.Fixed.{Fixed, fixed}
use crypto_data_aggregator.Numerics.{Numerics}
use crypto_data_aggregator.Python.{times}

abbrev last_or_zero : List Fixed → Fixed
last_or_zero [] = fixed 0
last_or_zero (x ∷ xs) = last_of x xs

instance abbrev pub numerics_fixed : Numerics Fixed
numerics_fixed = record {
  of_int = λ n. times n 10_000;
  percentile_99 = last_or_zero;
  round_to = λ k x. x;
  sort_values = sorted_by (λ b. b.ts_ns);
  digits = λ n. "n";
  places = λ k x. "x";
  joined = λ parts. "...";
}
