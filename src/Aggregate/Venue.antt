-- ===== src/Aggregate/Venue.antt =====
-- `bars_from_trades`: one venue's trade stream, rolled into a bar for each second that has trades.
pub mod Invariants
pub mod Stream
pub mod Origins
use Prim.Native.String.{String}
use crypto_data_aggregator.Prelude.{
  ℕ, ◌+◌, ◌==◌, Option, none, some, List, [], ◌∷◌, ◌++◌, if◌then◌else◌,
}
use crypto_data_aggregator.Prelude.Order.{Order, lt, gt}
use crypto_data_aggregator.Float.{Float, float_order, nought}
use crypto_data_aggregator.Trade.{Trade, Bar, second_of}

-- `current` with `cum_pxv` and `cum_v`, which start afresh with it. `current_sec_ns` is always the
-- `ts_ns` of `current`; its value -1 stands for `current is None`, which is `none` here.
pub record Rolling {ℓ} (F : Type ℓ) : Type ℓ where
  pub current : Bar F
  pub cum_pxv : F
  pub cum_v : F

module _ {ℓ} {F : Type ℓ} ⦃fl : Float F⦄ where
  -- The two writes of `_emit` before the bar is appended.
  unfoldable pub finish : Rolling F → Bar F
  finish r = record (r.current) {
    vwap = if lt nought r.cum_v then fl.div r.cum_pxv r.cum_v else r.current.close;
    volume = r.cum_v;
  }

  unfoldable pub emit : List (Bar F) → Option (Rolling F) → List (Bar F)
  unfolding finish
  emit bars none = bars
  emit bars (some r) = bars ++ (finish r ∷ [])

  -- The five updates at the end of a turn of the loop.
  unfoldable pub add_trade : Trade F → Rolling F → Rolling F
  add_trade t r = record {
    current = record (r.current) {
      high = if gt t.price r.current.high then t.price else r.current.high;
      low = if lt t.price r.current.low then t.price else r.current.low;
      close = t.price;
      trades = r.current.trades + 1;
    };
    cum_pxv = fl.add r.cum_pxv (fl.mul t.price t.size);
    cum_v = fl.add r.cum_v t.size;
  }

  module _ (symbol venue : String) (now_ns : ℕ) where
    unfoldable pub open_bar : Trade F → Rolling F
    open_bar t = record {
      current = record {
        ts_ns = second_of t.ts_ns;
        symbol = symbol;
        venue = venue;
        open_px = t.price;
        high = t.price;
        low = t.price;
        close = t.price;
        volume = nought;
        vwap = t.price;
        trades = 0;
        sources_mask = 0;
        ingested_at_ns = now_ns;
      };
      cum_pxv = nought;
      cum_v = nought;
    }

    -- One turn of the loop.
    unfoldable pub roll :
        List (Bar F) → Option (Rolling F) → Trade F → List (Bar F) × Option (Rolling F)
    unfolding add_trade open_bar emit
    roll bars none t = (bars, some (add_trade t (open_bar t)))
    roll bars (some r) t =
        if second_of t.ts_ns == r.current.ts_ns
        then (bars, some (add_trade t r))
        else (emit bars (some r), some (add_trade t (open_bar t)))

    -- The loop, and the last `_emit`.
    unfoldable pub roll_loop : List (Bar F) → Option (Rolling F) → List (Trade F) → List (Bar F)
    unfolding roll
    roll_loop bars current [] = emit bars current
    roll_loop bars current (t ∷ ts) =
        let (bars', current') = roll bars current t in roll_loop bars' current' ts

    unfoldable pub bars_from_trades : List (Trade F) → List (Bar F)
    unfolding roll_loop
    bars_from_trades trades = roll_loop [] none trades
