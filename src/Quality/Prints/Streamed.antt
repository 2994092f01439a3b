-- ===== src/Quality/Prints/Streamed.antt =====
-- The trades that the adapters' streams yield, under the check of trades.
use crypto_data_aggregator.Prelude.{
  ℕ, ◌≡◌, refl, ◌≢◌, ◌⊎◌, inl, inr, false, not, Option, List, All, All-imp,
}
use crypto_data_aggregator.Prelude.Int.{ℤ, pos, negsuc, int_order}
use crypto_data_aggregator.Float.{Float}
use crypto_data_aggregator.Numerics.{Numerics}
use crypto_data_aggregator.Python.{Python, Json}
use crypto_data_aggregator.Rows.{Trade}
use crypto_data_aggregator.Symbols.{Index}
use crypto_data_aggregator.Sources.Registry.{Adapter, session_of, stream_trades}
use crypto_data_aggregator.Sources.Registry.Safety.{stream_trades-IsStreamed}
use crypto_data_aggregator.Quality.{Issue}
use crypto_data_aggregator.Quality.Issues.{
  none_selected, Named-append, Named-issue_if, Named-nil, All-of_Named, issue_if-zero,
}
use crypto_data_aggregator.Quality.Prints.{is_side, check_trade_invariants}

is_side_of : (n : ℤ) → (n ≡ pos 1) ⊎ (n ≡ negsuc 0) → not (is_side n) ≡ false
unfolding is_side
is_side_of n (inl e) = rw e refl
is_side_of n (inr e) = rw e refl

module _ {ℓ} {F : Type ℓ} ⦃fl : Float F⦄ ⦃py : Python F⦄ ⦃nm : Numerics F⦄ where
  abbrev IsOther : Issue F → Type 0
  IsOther i = i.check ≢ "trade.bad_side"

  no_bad_side :
      (trades : List (Trade F))
      → All (λ t. not (is_side t.side) ≡ false) trades
      → All IsOther (check_trade_invariants trades)
  unfolding check_trade_invariants
  no_bad_side trades h =
      rw
        (issue_if-zero F _ "trade.bad_side" _ _
          (none_selected (λ t. not (is_side t.side)) trades h))
        (All-of_Named {P = λ c. c ≢ "trade.bad_side"} (
          Named-append
            (Named-append
              (Named-append
                (Named-append
                  (Named-append
                    (Named-append (Named-issue_if _ _ _ _ (λ e. cc))
                      (Named-issue_if _ _ _ _ (λ e. cc)))
                    Named-nil)
                  (Named-issue_if _ _ _ _ (λ e. cc)))
                (Named-issue_if _ _ _ _ (λ e. cc)))
              (Named-issue_if _ _ _ _ (λ e. cc)))
            (Named-issue_if _ _ _ _ (λ e. cc))))

  -- Whatever frames a venue sends, the check of trades finds no bad side in what its adapter's stream
  -- yields.
  pub check_trade_invariants-stream_trades :
      (index : Index) (recv_ns : ℕ → ℕ) (made_ns : ℕ → ℕ → ℕ) (adapter : Adapter)
      (frames : List (Option (Json F)))
      → All
          (λ (i : Issue F). i.check ≢ "trade.bad_side")
          (check_trade_invariants
            (stream_trades adapter (session_of py index adapter recv_ns made_ns) frames).0)
  check_trade_invariants-stream_trades index recv_ns made_ns adapter frames = no_bad_side _ (
      All-imp (λ t s. is_side_of t.side s.1.1.has_side) _
        (stream_trades-IsStreamed index recv_ns made_ns adapter frames))
