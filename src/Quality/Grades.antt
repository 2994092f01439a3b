-- ===== src/Quality/Grades.antt =====
-- How issues move the score and the grade.
use Prim.Native.String.{String}
use crypto_data_aggregator.Prelude.{
  ℕ, Bool, ◌≡◌, refl, inl, inr, true, false, List, [], ◌∷◌, ◌++◌, arith, Bool-cases,
}
use crypto_data_aggregator.Prelude.Order.{
  ◌≼◌, text_order, text_le, minimum, minimum-le, le-maximum, maximum-le_bound, bound-le_minimum,
}
use crypto_data_aggregator.Float.{Float, float_order, IsFloat, nought}
use crypto_data_aggregator.Quality.{
  Severity, info, minor, major, critical, Issue, weight, grade_for, deduct, clamp, score_of,
}

module _ {ℓ} {F : Type ℓ} ⦃fl : Float F⦄ where
  clamp_mono : (x y : F) → x ≼ y → clamp x ≼ clamp y
  unfolding clamp
  clamp_mono x y h =
      let top = fl.of_decimal 100 0 in
      let low_x = minimum top (x ∷ []) in
      let low_y = minimum top (y ∷ []) in
      let (below_top, below_x) = minimum-le top (x ∷ []) in
      let lower : low_x ≼ low_y =
        bound-le_minimum top y low_x below_top (float_order.le_trans low_x x y below_x.0 h) in
      let (from_zero, from_y) = le-maximum nought (low_y ∷ []) in
      maximum-le_bound nought low_x _ from_zero (float_order.le_trans low_x low_y _ lower from_y.0)

  abbrev reaches : ℕ → F → Bool
  reaches n x = float_order.le (fl.of_nat n) x

  -- A grade by its cases, each with the bounds that are reached and missed.
  grade_cases :
      (P : String → Type 0) (x : F)
      → (reaches 95 x ≡ true → P "A")
      → (reaches 95 x ≡ false → reaches 85 x ≡ true → P "B")
      → (reaches 95 x ≡ false → reaches 85 x ≡ false → reaches 70 x ≡ true → P "C")
      → (reaches 95 x ≡ false
          → reaches 85 x ≡ false
          → reaches 70 x ≡ false
          → reaches 50 x ≡ true
          → P "D")
      → (reaches 95 x ≡ false
          → reaches 85 x ≡ false
          → reaches 70 x ≡ false
          → reaches 50 x ≡ false
          → P "F")
      → P (grade_for x)
  unfolding grade_for
  grade_cases P x a b c d f = elim (Bool-cases (reaches 95 x)) [
    | inl e ↦ rw e (a e)
    | inr e₁ ↦ elim (Bool-cases (reaches 85 x)) [
      | inl e ↦ rw (e₁, e) (b e₁ e)
      | inr e₂ ↦ elim (Bool-cases (reaches 70 x)) [
        | inl e ↦ rw (e₁, e₂, e) (c e₁ e₂ e)
        | inr e₃ ↦ elim (Bool-cases (reaches 50 x)) [
          | inl e ↦ rw (e₁, e₂, e₃, e) (d e₁ e₂ e₃ e)
          | inr e ↦ rw (e₁, e₂, e₃, e) (f e₁ e₂ e₃ e)
        ]
      ]
    ]
  ]

  -- A higher score reaches every bound that a lower one reaches.
  missed {κ} : {P : Type κ} (n : ℕ) (x y : F) → x ≼ y → reaches n y ≡ false → reaches n x ≡ true → P
  missed n x y h e k = absurd (ground (arith, e, fl.order.le_trans (fl.of_nat n) x y k h))

  -- A lower score has no earlier letter.
  grade_for_mono : (x y : F) → x ≼ y → text_order.le (grade_for y) (grade_for x) ≡ true
  unfolding text_le
  grade_for_mono x y h =
      grade_cases (λ g. text_order.le g (grade_for x) ≡ true) y
        (λ e.
          grade_cases (λ g. text_order.le "A" g ≡ true) x (λ k. refl) (λ k l. refl) (λ k l m. refl)
            (λ k l m n. refl) (λ k l m n. refl))
        (λ e f.
          grade_cases (λ g. text_order.le "B" g ≡ true) x (missed 95 x y h e) (λ k l. refl)
            (λ k l m. refl) (λ k l m n. refl) (λ k l m n. refl))
        (λ e f g.
          grade_cases (λ g. text_order.le "C" g ≡ true) x (missed 95 x y h e)
            (λ k. missed 85 x y h f) (λ k l m. refl) (λ k l m n. refl) (λ k l m n. refl))
        (λ e f g i.
          grade_cases (λ g. text_order.le "D" g ≡ true) x (missed 95 x y h e)
            (λ k. missed 85 x y h f) (λ k l. missed 70 x y h g) (λ k l m n. refl) (λ k l m n. refl))
        (λ e f g i.
          grade_cases (λ g. text_order.le "F" g ≡ true) x (missed 95 x y h e)
            (λ k. missed 85 x y h f) (λ k l. missed 70 x y h g) (λ k l m. missed 50 x y h i)
            (λ k l m n. refl))

  module _ (laws : IsFloat F) where
    weight_nonneg : (s : Severity) → nought ≼ weight {F = F} s
    unfolding weight
    weight_nonneg info = laws.decimal_nonneg 0 0
    weight_nonneg minor = laws.decimal_nonneg 2 0
    weight_nonneg major = laws.decimal_nonneg 10 0
    weight_nonneg critical = laws.decimal_nonneg 30 0

    deduct_mono : (x y : F) (issues : List (Issue F)) → x ≼ y → deduct x issues ≼ deduct y issues
    unfolding deduct
    deduct_mono x y [] h = h
    deduct_mono x y (j ∷ issues) h =
        deduct_mono (fl.sub x (weight j.severity)) (fl.sub y (weight j.severity)) issues
          (laws.sub_mono x y (weight j.severity) h)

    deduct_insert :
        (x : F) (before : List (Issue F)) (i : Issue F) (after : List (Issue F))
        → deduct x (before ++ (i ∷ after)) ≼ deduct x (before ++ after)
    unfolding deduct
    deduct_insert x [] i after =
        deduct_mono _ _ after (laws.sub_le x (weight i.severity) (weight_nonneg i.severity))
    deduct_insert x (j ∷ before) i after =
        deduct_insert (fl.sub x (weight j.severity)) before i after

    -- One more issue, wherever it stands among the others, raises neither the score nor the grade (a letter
    -- further on is a worse grade), if rounding keeps order.
    pub score_of_insert :
        (round_2 : F → F)
        → ((x y : F) → x ≼ y → round_2 x ≼ round_2 y)
        → (base : F) (before : List (Issue F)) (i : Issue F) (after : List (Issue F))
        → ((score_of round_2 base (before ++ (i ∷ after))).0
            ≼ (score_of round_2 base (before ++ after)).0)
          × (text_order.le
                (score_of round_2 base (before ++ after)).1
                (score_of round_2 base (before ++ (i ∷ after))).1
              ≡ true)
    unfolding score_of
    score_of_insert round_2 mono base before i after =
        let less = clamp_mono _ _ (deduct_insert base before i after) in
        (mono _ _ less, grade_for_mono _ _ less)
