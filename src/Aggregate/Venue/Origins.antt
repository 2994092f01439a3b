-- ===== src/Aggregate/Venue/Origins.antt =====
-- Where the times of the bars of `bars_from_trades` come from.
use Prim.Native.String.{String}
use crypto_data_aggregator.Prelude.{
  ℕ, inl, inr, some, List, [], ◌∷◌, ◌++◌, ◌==◌, All, All-append, Bool-cases,
}
use crypto_data_aggregator.Float.{Float}
use crypto_data_aggregator.Trade.{Trade, Bar, second_of}
use crypto_data_aggregator.Aggregate.Venue.{
  Rolling, finish, add_trade, open_bar, roll_loop, bars_from_trades,
}
use crypto_data_aggregator.Aggregate.Venue.Invariants.{fresh, roll_same, roll_other}

module _ {ℓ κ} {F : Type ℓ} ⦃fl : Float F⦄ (symbol venue : String) (now_ns : ℕ)
    (P : ℕ → Type κ) where
  roll_loop-times :
      (bars : List (Bar F)) (r : Rolling F) (ts : List (Trade F))
      → All (λ b. P b.ts_ns) bars
      → P r.current.ts_ns
      → All (λ t. P (second_of t.ts_ns)) ts
      → All (λ b. P b.ts_ns) (roll_loop symbol venue now_ns bars (some r) ts)
  unfolding finish add_trade fresh open_bar
  roll_loop-times bars r [] h k l =
      unfold roll_loop in All-append (λ b. P b.ts_ns) bars (finish r ∷ []) h (k, tt)
  roll_loop-times bars r (t ∷ ts) h k l = elim (Bool-cases (second_of t.ts_ns == r.current.ts_ns)) [
    | inl e ↦
        rw (roll_same symbol venue now_ns bars r t ts e)
          (roll_loop-times bars (add_trade t r) ts h k l.1)
    | inr e ↦ rw (roll_other symbol venue now_ns bars r t ts e) (
        roll_loop-times (bars ++ (finish r ∷ [])) (fresh symbol venue now_ns t) ts
          (All-append (λ b. P b.ts_ns) bars (finish r ∷ []) h (k, tt)) l.0 l.1)
  ]

  -- What holds of the second of every trade holds of the time of every bar.
  pub bars_from_trades-times :
      (trades : List (Trade F))
      → All (λ t. P (second_of t.ts_ns)) trades
      → All (λ b. P b.ts_ns) (bars_from_trades symbol venue now_ns trades)
  unfolding bars_from_trades add_trade open_bar
  bars_from_trades-times [] h = tt
  bars_from_trades-times (t ∷ ts) h =
      roll_loop-times [] (add_trade t (open_bar symbol venue now_ns t)) ts tt h.0 h.1
