-- ===== src/Health.antt =====
-- cryptodata/core/health.py: the recent message rate of each (venue, symbol, stream). The lock makes each
-- operation one step, and every reading of `time.time_ns` is an argument.
pub mod Verdicts
pub mod Recorded
mod Tests
use Prim.Native.String.{String}
use crypto_data_aggregator.Prelude.{
  ℕ, ◌+◌, ◌*◌, Bool, false, not, ◌||◌, Option, none, some, List, [], ◌∷◌, ◌++◌, ltb, leb, length,
  select, if◌then◌else◌,
}
use crypto_data_aggregator.Prelude.Order.{text_order, pair_order, eq}
use crypto_data_aggregator.Prelude.Dict.{get, put}
use crypto_data_aggregator.Float.{Float, float_order, nought}

abbrev pub StreamKey : Type 0
StreamKey = String × (String × String)

abbrev pub without_first : List ℕ → List ℕ
without_first [] = []
without_first (t ∷ ts) = ts

-- `_RateWindow.record`, on a deque of at most 20000 times.
unfoldable pub record_time : ℕ → List ℕ → List ℕ
record_time ns timestamps =
    let longer = timestamps ++ (ns ∷ []) in
    if ltb 20_000 (length longer) then without_first longer else longer

abbrev pub Windows : Type 0
Windows = List (StreamKey × List ℕ)

abbrev pub window_or_new : Option (List ℕ) → List ℕ
window_or_new none = []
window_or_new (some ts) = ts

-- `HealthTracker.record`
unfoldable pub record_message : StreamKey → ℕ → Windows → Windows
unfolding record_time
record_message key ns windows = put key (record_time ns (window_or_new (get key windows))) windows

-- The messages of the workers in the order in which they take the lock, each with the clock's reading.
unfoldable pub record_all : List (StreamKey × ℕ) → Windows → Windows
unfolding record_message
record_all [] windows = windows
record_all ((key, ns) ∷ messages) windows = record_all messages (record_message key ns windows)

pub record Status {ℓ} (F : Type ℓ) : Type ℓ where
  pub recent_per_s : F
  pub baseline_per_s : F
  pub up : Bool

pub record Limits {ℓ} (F : Type ℓ) : Type ℓ where
  pub recent_window_s : ℕ
  pub baseline_window_s : ℕ
  pub threshold_ratio : F

module _ {ℓ} {F : Type ℓ} ⦃fl : Float F⦄ where
  -- `t >= now - window_ns`, with the subtraction moved to the other side.
  unfoldable pub rate_per_sec : ℕ → ℕ → List ℕ → F
  rate_per_sec window_ns now [] = nought
  rate_per_sec window_ns now (t ∷ ts) =
      fl.div (fl.of_nat (length (select (λ u. leb now (u + window_ns)) (t ∷ ts))))
        (fl.div (fl.of_nat window_ns) (fl.of_nat 1_000_000_000))

  -- The status of one window, with the two readings of the clock.
  unfoldable pub status_of : Limits F → ℕ → ℕ → List ℕ → Status F
  unfolding rate_per_sec
  status_of limits now_recent now_baseline timestamps =
      let recent = rate_per_sec (limits.recent_window_s * 1_000_000_000) now_recent timestamps in
      let baseline =
        rate_per_sec (limits.baseline_window_s * 1_000_000_000) now_baseline timestamps in
      record {
        recent_per_s = recent;
        baseline_per_s = baseline;
        up = eq baseline nought || float_order.le (fl.mul limits.threshold_ratio baseline) recent;
      }

  -- The loop over the windows: the report, and `_down`.
  unfoldable pub evaluate_loop :
      Limits F
      → (StreamKey → ℕ × ℕ)
      → Windows
      → List (StreamKey × Status F) × List (StreamKey × Bool)
      → List (StreamKey × Status F) × List (StreamKey × Bool)
  unfolding status_of
  evaluate_loop limits clock [] (report, down) = (report, down)
  evaluate_loop limits clock ((key, timestamps) ∷ windows) (report, down) =
      let status = status_of limits (clock key).0 (clock key).1 timestamps in
      evaluate_loop limits clock windows (put key status report, put key (not status.up) down)

  unfoldable pub evaluate :
      Limits F
      → (StreamKey → ℕ × ℕ)
      → Windows
      → List (StreamKey × Bool)
      → List (StreamKey × Status F) × List (StreamKey × Bool)
  unfolding evaluate_loop
  evaluate limits clock windows down = evaluate_loop limits clock windows ([], down)

abbrev pub down_or_up : Option Bool → Bool
down_or_up none = false
down_or_up (some d) = d

unfoldable pub is_down : StreamKey → List (StreamKey × Bool) → Bool
is_down key down = down_or_up (get key down)
