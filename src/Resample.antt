-- ===== src/Resample.antt =====
-- cryptodata/core/resample.py: the bars of one venue in longer windows. `left_edge` stands for the bins of
-- pandas: the label of the window in which a time lies. The bars come in the order of time, as
-- query/bars.py asks for them, and so do their windows; a window without bars has no close and is dropped.
-- The columns are those of cryptodata/query/bars.py, which puts the symbol and the venue back.
pub mod Windows
mod Tests
use Prim.Native.String.{String}
use crypto_data_aggregator.Prelude.{
  ℕ, Bool, ◌||◌, List, [], ◌∷◌, map, total_of, last_of, if◌then◌else◌,
}
use crypto_data_aggregator.Prelude.Order.{nat_order, text_order, eq, lt, maximum, minimum}
use crypto_data_aggregator.Prelude.Groups.{group_loop}
use crypto_data_aggregator.Float.{Float, float_order, nought}
use crypto_data_aggregator.Trade.{Bar}

module _ {ℓ} {F : Type ℓ} ⦃fl : Float F⦄ (symbol venue : String) where
  -- The row of the window at `edge` with the bars `b ∷ bs`.
  unfoldable pub window_bar : ℕ → Bar F → List (Bar F) → Bar F
  window_bar edge b bs =
      let volume = fl.sum (b.volume ∷ map (λ c. c.volume) bs) in
      let close = (last_of b bs).close in
      let pxv = fl.sum (fl.mul b.vwap b.volume ∷ map (λ c. fl.mul c.vwap c.volume) bs) in
      record {
        ts_ns = edge;
        symbol = symbol;
        venue = venue;
        open_px = b.open_px;
        high = maximum b.high (map (λ c. c.high) bs);
        low = minimum b.low (map (λ c. c.low) bs);
        close = close;
        volume = volume;
        vwap = if lt nought volume then fl.div pxv volume else close;
        trades = total_of (map (λ c. c.trades) (b ∷ bs));
        sources_mask = maximum b.sources_mask (map (λ c. c.sources_mask) bs);
        ingested_at_ns = maximum b.ingested_at_ns (map (λ c. c.ingested_at_ns) bs);
      }

  unfoldable pub window_bars : List (ℕ × List (Bar F)) → List (Bar F)
  unfolding window_bar
  window_bars [] = []
  window_bars ((edge, []) ∷ more) = window_bars more
  window_bars ((edge, b ∷ bs) ∷ more) = window_bar edge b bs ∷ window_bars more

  unfoldable pub resample_bars : (String → ℕ → ℕ) → String → List (Bar F) → List (Bar F)
  unfolding window_bars group_loop
  resample_bars left_edge timeframe bars =
      if eq timeframe "1s" || eq timeframe "1S"
      then bars
      else window_bars (group_loop (λ b. left_edge timeframe b.ts_ns) (λ b. b) bars [])
