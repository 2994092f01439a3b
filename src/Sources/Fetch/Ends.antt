-- ===== src/Sources/Fetch/Ends.antt =====
-- The end of Kraken's backfill.
use Prim.Native.String.{String}
use crypto_data_aggregator.Prelude.{
  ℕ, ◌+◌, ◌-◌, ◌<◌, ◌≤◌, ◌≡◌, refl, Bool, true, false, Option, none, some, List, inl, inr,
  Bool-cases, arith,
}
use crypto_data_aggregator.Prelude.Int.{ℤ, pos_part, neg_part, int_order}
use crypto_data_aggregator.Prelude.Order.{text_order, lt, gt, eq}
use crypto_data_aggregator.Float.{Float}
use crypto_data_aggregator.Python.{Result, ok, Json, Python, is_truthy}
use crypto_data_aggregator.Python.Results.{Ensures, holds, IsNoneOr, Ensures-read, Ensures-ok}
use crypto_data_aggregator.Sources.Fetch.{go_on_if}
use crypto_data_aggregator.Sources.Fetch.Loops.{HasEnded, fetch_while-HasEnded}
use crypto_data_aggregator.Sources.Fetch.Kraken

-- How far one time is before another.
abbrev pub gap : ℤ → ℤ → ℕ
gap a b = (pos_part b + neg_part a) - (neg_part b + pos_part a)

gap_pos : (a b : ℤ) → lt a b ≡ true → 0 < gap a b
gap_pos a b h = ground arith

gap_falls : (a t b : ℤ) → lt a b ≡ true → gt t a ≡ true → gap t b < gap a b
gap_falls a t b h k = ground arith

-- A turn goes on, if at all, from a later time.
abbrev GoesOnLater {ℓ} : {B : Type ℓ} → ℤ → List B × Option ℤ → Type 0
GoesOnLater since turn = IsNoneOr (λ t. gt t since ≡ true) turn.1

go_on_if-GoesOnLater {ℓ} :
    {B : Type ℓ} (bs : List B) (since t : ℤ) (c : Bool)
    → gt t since ≡ c
    → Ensures (GoesOnLater since) (go_on_if c bs t)
go_on_if-GoesOnLater bs since t true e = holds e
go_on_if-GoesOnLater bs since t false e = holds tt

module _ {ℓ} {F : Type ℓ} ⦃fl : Float F⦄ ⦃py : Python F⦄ where
  trades_page-GoesOnLater :
      (server : ℕ → ℤ → Result (Json F)) (made_ns : ℕ → ℕ → ℕ) (symbol : String) (end_ns : ℤ)
      (n : ℕ) (since : ℤ)
      → Ensures (GoesOnLater since) (Kraken.trades_page server made_ns symbol end_ns n since)
  unfolding Kraken.trades_page
  trades_page-GoesOnLater server made_ns symbol end_ns n since = Ensures-read _ λ body.
      Ensures-read _ λ result. Ensures-read _ λ trade_list. Ensures-read _ λ last_cursor.
        elim (Bool-cases (is_truthy trade_list)) [
          | inl e ↦ rw e (
              Ensures-read _
                λ rows. Ensures-read _ λ out. go_on_if-GoesOnLater out.0 since last_cursor _ refl)
          | inr e ↦ rw e (holds tt)
        ]

  -- Whatever the server answers, Kraken's `fetch_trades` comes to an end, with trades or an exception,
  -- within as many turns of its loop as there are nanoseconds between its two times.
  pub fetch_trades-HasEnded :
      (server : String → ℕ → ℤ → Result (Json F)) (made_ns : ℕ → ℕ → ℕ) (native : Option String)
      (symbol : String) (start_ns end_ns : ℤ) (fuel : ℕ)
      → gap start_ns end_ns ≤ fuel
      → HasEnded (Kraken.fetch_trades server made_ns native symbol start_ns end_ns fuel)
  unfolding Kraken.fetch_trades
  fetch_trades-HasEnded server made_ns none symbol start_ns end_ns fuel le = (ok _, refl)
  fetch_trades-HasEnded server made_ns (some pair) symbol start_ns end_ns fuel le =
      elim (Bool-cases (eq pair "")) [
        | inl e ↦ rw e (ok _, refl)
        | inr e ↦ rw e (
            fetch_while-HasEnded (λ since. lt since end_ns)
              (Kraken.trades_page (server pair) made_ns symbol end_ns) (λ since. gap since end_ns)
              (λ since. gap_pos since end_ns)
              (λ n since t bs h p. gap_falls since t end_ns h (
                Ensures-ok p (trades_page-GoesOnLater (server pair) made_ns symbol end_ns n since)))
              fuel 0 start_ns (omega (arith, le)))
      ]
