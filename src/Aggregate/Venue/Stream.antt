-- ===== src/Aggregate/Venue/Stream.antt =====
-- `bars_from_trades` as a whole: the number of trades, and the order of the bars.
use Prim.Native.String.{String}
use crypto_data_aggregator.Prelude.{
  ℕ, ◌+◌, ◌<◌, ◌≤◌, ◌≡◌, refl, inl, inr, some, List, [], ◌∷◌, ◌++◌, map, arith, ◌==◌, total_of,
  length, All, All-append, All-imp, Ascends, Ascends-snoc, Bool-cases,
}
use crypto_data_aggregator.Float.{Float, float_order}
use crypto_data_aggregator.Trade.{Trade, Bar, second_of, second_of_mono}
use crypto_data_aggregator.Consolidated.Merge.Ordering.{LeTs}
use crypto_data_aggregator.Aggregate.Venue.{
  Rolling, finish, add_trade, open_bar, roll_loop, bars_from_trades,
}
use crypto_data_aggregator.Aggregate.Venue.Invariants.{fresh, roll_same, roll_other}

module _ {ℓ} {F : Type ℓ} ⦃fl : Float F⦄ (symbol venue : String) (now_ns : ℕ) where
  abbrev trade_count : List (Bar F) → ℕ
  trade_count bars = total_of (map (λ b. b.trades) bars)

  trade_count-snoc :
      (bars : List (Bar F)) (b : Bar F)
      → trade_count (bars ++ (b ∷ [])) ≡ trade_count bars + b.trades
  trade_count-snoc [] b = omega arith
  trade_count-snoc (c ∷ bars) b = omega (arith, trade_count-snoc bars b)

  roll_loop-trade_count :
      (bars : List (Bar F)) (r : Rolling F) (ts : List (Trade F))
      → trade_count (roll_loop symbol venue now_ns bars (some r) ts)
        ≡ trade_count bars + r.current.trades + length ts
  unfolding finish add_trade fresh open_bar
  roll_loop-trade_count bars r [] =
      unfold roll_loop in omega (arith, trade_count-snoc bars (finish r))
  roll_loop-trade_count bars r (t ∷ ts) = elim (Bool-cases (second_of t.ts_ns == r.current.ts_ns)) [
    | inl e ↦
        rw (roll_same symbol venue now_ns bars r t ts e)
          (omega (arith, roll_loop-trade_count bars (add_trade t r) ts))
    | inr e ↦ rw (roll_other symbol venue now_ns bars r t ts e) (
        omega (
          arith,
          trade_count-snoc bars (finish r),
          roll_loop-trade_count (bars ++ (finish r ∷ [])) (fresh symbol venue now_ns t) ts,
        ))
  ]

  -- The trade counts of the bars add up to the number of trades: each trade is in exactly one bar.
  pub bars_from_trades-trade_count :
      (trades : List (Trade F))
      → total_of (map (λ b. b.trades) (bars_from_trades symbol venue now_ns trades)) ≡ length trades
  unfolding bars_from_trades add_trade open_bar
  bars_from_trades-trade_count [] = refl
  bars_from_trades-trade_count (t ∷ ts) =
      omega (arith, roll_loop-trade_count [] (add_trade t (open_bar symbol venue now_ns t)) ts)

  abbrev Earlier : Bar F → Bar F → Type 0
  Earlier a b = a.ts_ns < b.ts_ns

  roll_loop-Ascends :
      (bars : List (Bar F)) (r : Rolling F) (ts : List (Trade F))
      → Ascends Earlier bars
      → All (λ b. b.ts_ns < r.current.ts_ns) bars
      → All (λ (t : Trade F). r.current.ts_ns ≤ second_of t.ts_ns) ts
      → Ascends LeTs ts
      → Ascends Earlier (roll_loop symbol venue now_ns bars (some r) ts)
  unfolding finish add_trade fresh open_bar
  roll_loop-Ascends bars r [] h k l s = unfold roll_loop in Ascends-snoc Earlier bars (finish r) h k
  roll_loop-Ascends bars r (t ∷ ts) h k l s =
      elim (Bool-cases (second_of t.ts_ns == r.current.ts_ns)) [
        | inl e ↦
            rw (roll_same symbol venue now_ns bars r t ts e)
              (roll_loop-Ascends bars (add_trade t r) ts h k l.1 s.1)
        | inr e ↦
            let further : r.current.ts_ns < second_of t.ts_ns = ground (arith, l.0, e) in
            rw (roll_other symbol venue now_ns bars r t ts e) (
              roll_loop-Ascends (bars ++ (finish r ∷ [])) (fresh symbol venue now_ns t) ts
                (Ascends-snoc Earlier bars (finish r) h k)
                (All-append (λ b. b.ts_ns < second_of t.ts_ns) bars (finish r ∷ [])
                  (All-imp (λ b p. omega arith) bars k) (further, tt))
                (All-imp (λ u p. second_of_mono t.ts_ns u.ts_ns p) ts s.0) s.1)
      ]

  -- If the trades ascend by exchange time, the bars come in strictly ascending order: one for each
  -- second.
  pub bars_from_trades-Ascends :
      (trades : List (Trade F))
      → Ascends LeTs trades
      → Ascends (λ (a b : Bar F). a.ts_ns < b.ts_ns) (bars_from_trades symbol venue now_ns trades)
  unfolding bars_from_trades add_trade open_bar
  bars_from_trades-Ascends [] s = tt
  bars_from_trades-Ascends (t ∷ ts) s =
      roll_loop-Ascends [] (add_trade t (open_bar symbol venue now_ns t)) ts tt tt
        (All-imp (λ u p. second_of_mono t.ts_ns u.ts_ns p) ts s.0) s.1
