-- ===== src/Consolidated/Bars.antt =====
-- `build_agg_bars`: from the merged stream to one bar for each second.
pub mod Buckets
pub mod Shape
pub mod Coverage
pub mod Mask
use Prim.Native.String.{String}
use crypto_data_aggregator.Prelude.{
  ℕ, Bool, false, ◌||◌, Option, none, some, List, [], ◌∷◌, ◌++◌, map, if◌then◌else◌, length,
  last_of, ◌-◌,
}
use Prim.Native.Nat.{bit_or}
use crypto_data_aggregator.Prelude.Int.{ℤ, sub_ℕ, int_order}
use crypto_data_aggregator.Prelude.Order.{nat_order, text_order, gt, eq, maximum, minimum}
use crypto_data_aggregator.Prelude.Sorting.{sorted_set}
use crypto_data_aggregator.Prelude.Dict.{get, keys, get_list, append_at}
use crypto_data_aggregator.Float.{Float, float_order, nought}
use crypto_data_aggregator.Trade.{Trade, Bar, received, second_of}
use crypto_data_aggregator.Symbols.{venue_bitmask_index}
use crypto_data_aggregator.Consolidated.Filter.{robust_filter, prices}

-- The keyword arguments.
pub record Options {ℓ} (F : Type ℓ) : Type ℓ where
  pub symbol : String
  pub venues_index : Option (List (String × ℕ))
  pub mad_k : F
  pub min_venues_for_filter : ℕ
  pub excluded_venues : List String
  pub stale_recv_lag_ms : Option F
  pub return_diagnostics : Bool

-- A row of the per-second diagnostics. `none` as the median is NaN.
pub record Diagnostic {ℓ} (F : Type ℓ) : Type ℓ where
  pub ts_ns : ℕ
  pub symbol : String
  pub n_raw : ℕ
  pub n_kept : ℕ
  pub n_dropped : ℕ
  pub median_px : Option F
  pub venues : List String

unfoldable pub contains : String → List String → Bool
contains v [] = false
contains v (w ∷ ws) = eq v w || contains v ws

-- `venues_index.get(v, 0)`
unfoldable pub bit_of : List (String × ℕ) → String → ℕ
bit_of index v = elim (get v index) [ none ↦ 0 | some b ↦ b ]

-- `for v in kept_venues: mask |= venues_index.get(v, 0)`
unfoldable pub mask_loop : List (String × ℕ) → List String → ℕ → ℕ
unfolding bit_of
mask_loop index [] mask = mask
mask_loop index (v ∷ vs) mask = mask_loop index vs (bit_or mask (bit_of index v))

-- `by_sec` and `venues_seen` (a set, as the list of what was added).
abbrev pub Buckets {ℓ} : Type ℓ → Type ℓ
Buckets F = List (ℕ × List (Trade F)) × List String

abbrev pub cons_some {ℓ} : {A : Type ℓ} → Option A → List A → List A
cons_some none xs = xs
cons_some (some x) xs = x ∷ xs

abbrev pub index_or : Option (List (String × ℕ)) → List String → List (String × ℕ)
index_or none seen = venue_bitmask_index seen
index_or (some index) seen = index

module _ {ℓ} {F : Type ℓ} where
  -- `{t.get("venue") for t in trades}`, sorted
  abbrev pub venues_of : List (Trade F) → List String
  venues_of trades = sorted_set (map (λ t. t.venue) trades)

  abbrev pub sizes : List (Trade F) → List F
  sizes = map (λ t. t.size)

module _ {ℓ} {F : Type ℓ} ⦃fl : Float F⦄ where
  -- `int(stale_recv_lag_ms * 1_000_000) if stale_recv_lag_ms else None`: a budget of zero is none.
  unfoldable pub stale_lag_ns : Option F → Option ℤ
  stale_lag_ns none = none
  stale_lag_ns (some ms) =
      if eq ms nought then none else some (fl.truncate (fl.mul ms (fl.of_nat 1_000_000)))

  -- `lag > stale_lag_ns`, where a negative lag is one of the clocks.
  unfoldable pub is_stale : Option ℤ → Trade F → Bool
  is_stale none t = false
  is_stale (some budget) t = gt (sub_ℕ (received t) t.ts_ns) budget

  -- The three `continue`s of the first loop.
  unfoldable pub is_skipped : Options F → Trade F → Bool
  unfolding contains stale_lag_ns is_stale
  is_skipped opts t =
      contains t.venue opts.excluded_venues
      || is_stale (stale_lag_ns opts.stale_recv_lag_ms) t
      || float_order.le t.size nought

  -- The first loop, from the buckets so far.
  unfoldable pub bucket_loop : Options F → List (Trade F) → Buckets F → Buckets F
  unfolding is_skipped
  bucket_loop opts [] st = st
  bucket_loop opts (t ∷ ts) (by_sec, seen) = bucket_loop opts ts (
      if is_skipped opts t
      then (by_sec, seen)
      else (append_at (second_of t.ts_ns) t by_sec, seen ++ (t.venue ∷ [])))

  unfoldable pub volume_of : List (Trade F) → F
  volume_of trades = fl.sum (sizes trades)

  -- `sum(t["price"] * t["size"] for t in kept) / total_v`
  unfoldable pub vwap_of : List (Trade F) → F
  unfolding volume_of
  vwap_of trades = fl.div (fl.sum (map (λ t. fl.mul t.price t.size) trades)) (volume_of trades)

  -- The bar of the survivors `t ∷ ts` of a second.
  unfoldable pub bar_of : Options F → List (String × ℕ) → ℕ → ℕ → Trade F → List (Trade F) → Bar F
  unfolding mask_loop vwap_of
  bar_of opts index now_ns sec t ts = record {
    ts_ns = sec;
    symbol = opts.symbol;
    venue = "agg";
    open_px = t.price;
    high = maximum t.price (prices ts);
    low = minimum t.price (prices ts);
    close = (last_of t ts).price;
    volume = volume_of (t ∷ ts);
    vwap = vwap_of (t ∷ ts);
    trades = length (t ∷ ts);
    sources_mask = mask_loop index (venues_of (t ∷ ts)) 0;
    ingested_at_ns = now_ns;
  }

  -- `if not kept` and `if total_v <= 0` pass on to the next second.
  unfoldable pub bar_or_skip :
      Options F → List (String × ℕ) → ℕ → ℕ → List (Trade F) → Option (Bar F)
  unfolding bar_of
  bar_or_skip opts index now_ns sec [] = none
  bar_or_skip opts index now_ns sec (t ∷ ts) =
      if float_order.le (volume_of (t ∷ ts)) nought
      then none
      else some (bar_of opts index now_ns sec t ts)

  abbrev pub diagnostic :
      Options F → ℕ → List (Trade F) → List (Trade F) → Option F → List String → Diagnostic F
  diagnostic opts sec raw kept med venues = record {
    ts_ns = sec;
    symbol = opts.symbol;
    n_raw = length raw;
    n_kept = length kept;
    n_dropped = length raw - length kept;
    median_px = med;
    venues = venues;
  }

  unfoldable pub diagnostic_or_skip :
      Options F → ℕ → List (Trade F) → List (Trade F) → Option F → Option (Diagnostic F)
  unfolding volume_of
  diagnostic_or_skip opts sec raw [] med =
      if opts.return_diagnostics
      then some (diagnostic opts sec raw [] med (venues_of raw))
      else none
  diagnostic_or_skip opts sec raw (t ∷ ts) med =
      if float_order.le (volume_of (t ∷ ts)) nought
      then none
      else if opts.return_diagnostics
      then some (diagnostic opts sec raw (t ∷ ts) med (venues_of (t ∷ ts)))
      else none

  -- The second loop, over the seconds that are left: bars and diagnostics, in the order of the loop.
  unfoldable pub second_loop :
      Options F
      → List (String × ℕ)
      → ℕ
      → List (ℕ × List (Trade F))
      → List ℕ
      → List (Bar F) × List (Diagnostic F)
  unfolding bar_or_skip diagnostic_or_skip
  second_loop opts index now_ns by_sec [] = ([], [])
  second_loop opts index now_ns by_sec (sec ∷ secs) =
      let raw = get_list sec by_sec in
      let (kept, med) = robust_filter opts.mad_k opts.min_venues_for_filter raw in
      let (bars, diags) = second_loop opts index now_ns by_sec secs in
      (
        cons_some (bar_or_skip opts index now_ns sec kept) bars,
        cons_some (diagnostic_or_skip opts sec raw kept med) diags,
      )

  -- Both results; the diagnostics are empty where they are not asked for. `now_ns` is the clock.
  unfoldable pub build_agg_bars :
      Options F → ℕ → List (Trade F) → List (Bar F) × List (Diagnostic F)
  unfolding bucket_loop second_loop
  build_agg_bars opts now_ns consolidated =
      let (by_sec, seen) = bucket_loop opts consolidated ([], []) in
      second_loop opts (index_or opts.venues_index seen) now_ns by_sec (sorted_set (keys by_sec))
