-- ===== src/Aggregate/Venue/Invariants.antt =====
-- The bars of `bars_from_trades`, one by one.
use Prim.Native.String.{String}
use crypto_data_aggregator.Prelude.{
  ℕ, ◌<◌, ◌≡◌, refl, true, false, inl, inr, some, List, [], ◌∷◌, ◌++◌, arith, ◌==◌, All, All-append,
  Bool-cases,
}
use crypto_data_aggregator.Prelude.Order.{◌≼◌, ≼_refl, ≼_of_not-≼}
use crypto_data_aggregator.Float.{Float, float_order}
use crypto_data_aggregator.Trade.{Trade, Bar, second_of, second_of_idem}
use crypto_data_aggregator.Aggregate.Venue.{
  Rolling, finish, add_trade, open_bar, roll_loop, bars_from_trades,
}

module _ {ℓ} {F : Type ℓ} ⦃fl : Float F⦄ (symbol venue : String) where
  -- A sane bar of the given symbol and venue, but for its volume.
  pub record IsVenueBar (b : Bar F) : Type ℓ where
    pub on_grid : second_of b.ts_ns ≡ b.ts_ns
    pub symbol_eq : b.symbol ≡ symbol
    pub venue_eq : b.venue ≡ venue
    pub low-le_open : b.low ≼ b.open_px
    pub open-le_high : b.open_px ≼ b.high
    pub low-le_close : b.low ≼ b.close
    pub close-le_high : b.close ≼ b.high
    pub no_mask : b.sources_mask ≡ 0

  add_trade-IsVenueBar :
      (t : Trade F) (r : Rolling F)
      → IsVenueBar r.current
      → IsVenueBar (add_trade t r).current × (0 < (add_trade t r).current.trades)
  unfolding add_trade
  add_trade-IsVenueBar t r v =
      let o = float_order {F = F} in
      let c = r.current in
      (
        record {
          on_grid = v.on_grid;
          symbol_eq = v.symbol_eq;
          venue_eq = v.venue_eq;
          low-le_open = elim (Bool-cases (o.le c.low t.price)) [
            | inl e ↦ rw e v.low-le_open
            | inr e ↦
                rw e (o.le_trans t.price c.low c.open_px (≼_of_not-≼ c.low t.price e) v.low-le_open)
          ];
          open-le_high = elim (Bool-cases (o.le t.price c.high)) [
            | inl e ↦ rw e v.open-le_high
            | inr e ↦
                rw e
                  (o.le_trans c.open_px c.high t.price v.open-le_high (≼_of_not-≼ t.price c.high e))
          ];
          low-le_close = elim (Bool-cases (o.le c.low t.price)) [
            | inl e ↦ rw e e
            | inr e ↦ rw e (≼_refl t.price)
          ];
          close-le_high = elim (Bool-cases (o.le t.price c.high)) [
            | inl e ↦ rw e e
            | inr e ↦ rw e (≼_refl t.price)
          ];
          no_mask = v.no_mask;
        },
        omega arith,
      )

  module _ (now_ns : ℕ) where
    abbrev IsDone : Bar F → Type ℓ
    IsDone b = IsVenueBar b × (0 < b.trades)

    open_bar-IsVenueBar : (t : Trade F) → IsVenueBar (open_bar symbol venue now_ns t).current
    unfolding open_bar
    open_bar-IsVenueBar t = record {
      on_grid = second_of_idem t.ts_ns;
      symbol_eq = refl;
      venue_eq = refl;
      low-le_open = ≼_refl t.price;
      open-le_high = ≼_refl t.price;
      low-le_close = ≼_refl t.price;
      close-le_high = ≼_refl t.price;
      no_mask = refl;
    }

    finish-IsDone : (r : Rolling F) → IsDone r.current → IsDone (finish r)
    unfolding finish
    finish-IsDone r d = (
      record {
        on_grid = d.0.on_grid;
        symbol_eq = d.0.symbol_eq;
        venue_eq = d.0.venue_eq;
        low-le_open = d.0.low-le_open;
        open-le_high = d.0.open-le_high;
        low-le_close = d.0.low-le_close;
        close-le_high = d.0.close-le_high;
        no_mask = d.0.no_mask;
      },
      d.1,
    )

    unfoldable pub fresh : Trade F → Rolling F
    fresh t = add_trade t (open_bar symbol venue now_ns t)

    -- One turn, while a bar is open: the trade joins the open bar, or closes it and opens its own.
    pub roll_same :
        (bars : List (Bar F)) (r : Rolling F) (t : Trade F) (ts : List (Trade F))
        → (second_of t.ts_ns == r.current.ts_ns) ≡ true
        → roll_loop symbol venue now_ns bars (some r) (t ∷ ts)
          ≡ roll_loop symbol venue now_ns bars (some (add_trade t r)) ts
    unfolding roll_loop
    roll_same bars r t ts e = rw e

    pub roll_other :
        (bars : List (Bar F)) (r : Rolling F) (t : Trade F) (ts : List (Trade F))
        → (second_of t.ts_ns == r.current.ts_ns) ≡ false
        → roll_loop symbol venue now_ns bars (some r) (t ∷ ts)
          ≡ roll_loop symbol venue now_ns (bars ++ (finish r ∷ [])) (some (fresh t)) ts
    unfolding roll_loop fresh
    roll_other bars r t ts e = rw e

    roll_loop-IsDone :
        (bars : List (Bar F)) (r : Rolling F) (ts : List (Trade F))
        → All IsDone bars
        → IsDone r.current
        → All IsDone (roll_loop symbol venue now_ns bars (some r) ts)
    roll_loop-IsDone bars r [] h d =
        unfold roll_loop in All-append IsDone bars (finish r ∷ []) h (finish-IsDone r d, tt)
    roll_loop-IsDone bars r (t ∷ ts) h d =
        elim (Bool-cases (second_of t.ts_ns == r.current.ts_ns)) [
          | inl e ↦
              rw (roll_same bars r t ts e)
                (roll_loop-IsDone bars (add_trade t r) ts h (add_trade-IsVenueBar t r d.0))
          | inr e ↦ rw (roll_other bars r t ts e) (
              roll_loop-IsDone (bars ++ (finish r ∷ [])) (fresh t) ts
                (All-append IsDone bars (finish r ∷ []) h (finish-IsDone r d, tt))
                (unfold fresh in
                  add_trade-IsVenueBar t (open_bar symbol venue now_ns t) (open_bar-IsVenueBar t)))
        ]

    -- Every bar is on the second grid, carries the symbol and the venue, has open and close between low
    -- and high, no mask, and at least one trade; the trades need not be sorted for that.
    pub bars_from_trades-IsVenueBar :
        (trades : List (Trade F))
        → All (λ b. IsVenueBar b × (0 < b.trades)) (bars_from_trades symbol venue now_ns trades)
    unfolding bars_from_trades
    bars_from_trades-IsVenueBar [] = tt
    bars_from_trades-IsVenueBar (t ∷ ts) =
        roll_loop-IsDone [] (add_trade t (open_bar symbol venue now_ns t)) ts tt
          (add_trade-IsVenueBar t (open_bar symbol venue now_ns t) (open_bar-IsVenueBar t))
