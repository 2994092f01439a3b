-- ===== src/Quality/Report/Counts.antt =====
-- The counts on scorecards, and the files by date.
use crypto_data_aggregator.Prelude.{
  ℕ, ◌≡◌, refl, sym, ap, ◌∙◌, inl, inr, Bool, true, false, Option, List, [], ◌∷◌, map, arith,
  length, length-map, select, Bool-cases,
}
use Prim.Native.String.{String}
use crypto_data_aggregator.Prelude.Order.{text_order, text_le, eq}
use crypto_data_aggregator.Prelude.Dict.{get, get_list}
use crypto_data_aggregator.Prelude.Groups.{counted, counted-tally, get-tally, get_list-group_loop}
use mathlib.Core.List.{map-id}
use crypto_data_aggregator.Float.{Float}
use crypto_data_aggregator.Numerics.{Numerics}
use crypto_data_aggregator.Quality.{Issue, Severity, info, minor, major, critical}
use crypto_data_aggregator.Quality.Report.{
  label, to_dict, Slice, ScoreCard, card_of, score_venue, score_agg, score_day,
}
use crypto_data_aggregator.Quality.Report.Summary.{Combo, write_daily_quality}

abbrev pub is_critical : Severity → Bool
is_critical critical = true
is_critical _ = false

label-is_critical : (s : Severity) → eq (label s) "critical" ≡ is_critical s
unfolding label text_le
label-is_critical info = refl
label-is_critical minor = refl
label-is_critical major = refl
label-is_critical critical = refl

module _ {ℓ} {F : Type ℓ} where
  abbrev criticals : List (Issue F) → ℕ
  criticals issues = length (select (λ i. is_critical i.severity) issues)

  label_count :
      (issues : List (Issue F))
      → length (select (λ l. eq l "critical") (map (λ i. label i.severity) issues))
        ≡ criticals (map to_dict issues)
  label_count [] = refl
  label_count (i ∷ issues) = elim (Bool-cases (is_critical i.severity)) [
    | inl e ↦ rw (label-is_critical i.severity, e) (ap ℕ.suc (label_count issues))
    | inr e ↦ rw (label-is_critical i.severity, e) (label_count issues)
  ]

  -- The counts of a card are those of its issues.
  abbrev AreItsCounts : ScoreCard F → Type 0
  AreItsCounts card =
      (card.n_issues ≡ length card.issues)
      × (counted card.severity_counts ≡ card.n_issues)
      × (card.n_critical ≡ criticals card.issues)

module _ {ℓ} {F : Type ℓ} ⦃fl : Float F⦄ ⦃nm : Numerics F⦄ where
  card_of-counts :
      (symbol venue date : String) (slice : Slice F) (now_ns : ℕ) (issues : List (Issue F))
      (pct : Option F) (secs : Option ℕ) (basis : String)
      → AreItsCounts (card_of symbol venue date slice now_ns issues pct secs basis)
  unfolding card_of get
  card_of-counts symbol venue date slice now_ns issues pct secs basis =
      let labels = map (λ (i : Issue F). label i.severity) issues in
      (
        sym (length-map to_dict issues),
        omega
            (arith, counted-tally labels [], length-map (λ (i : Issue F). label i.severity) issues),
        get-tally "critical" labels [] ∙ omega (arith, label_count issues),
      )

  -- On every scorecard, `n_issues` is the number of the issues, the counts by severity add up to it, and
  -- `n_critical` is the number of its issues that are critical.
  pub score_day-counts :
      (symbol venue date : String) (slice : Slice F) (now_ns : ℕ)
      → let card = score_day symbol venue date slice now_ns in
        (card.n_issues ≡ length card.issues)
        × (counted card.severity_counts ≡ card.n_issues)
        × (card.n_critical ≡ length (select (λ i. is_critical i.severity) card.issues))
  unfolding score_day score_venue score_agg
  score_day-counts symbol venue date slice now_ns = elim (Bool-cases (eq venue "agg")) [
    | inl e ↦ rw e (card_of-counts symbol "agg" date slice now_ns _ _ _ _)
    | inr e ↦ rw e (card_of-counts symbol venue date slice now_ns _ _ _ _)
  ]

  -- The file of a date holds exactly the cards of that date, in the order of the rows.
  pub write_daily_quality-by_date :
      (slice_of : Combo → Slice F) (now_ns : ℕ) (symbols dates : Option (List String))
      (combos : List Combo) (date : String)
      → let written = write_daily_quality slice_of now_ns symbols dates combos in
        get_list date written.by_date ≡ select (λ c. eq c.date date) written.rows
  unfolding write_daily_quality get_list get
  write_daily_quality-by_date slice_of now_ns symbols dates combos date =
      get_list-group_loop (λ (c : ScoreCard F). c.date) (λ c. c) date _ [] ∙ map-id _
