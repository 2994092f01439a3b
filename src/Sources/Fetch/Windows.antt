-- ===== src/Sources/Fetch/Windows.antt =====
-- The windows of the backfills of OKX and Bitstamp.
use Prim.Native.String.{String}
use crypto_data_aggregator.Prelude.{
  ℕ, ◌≡◌, refl, ◌||◌, Option, none, some, List, [], inl, inr, Bool-cases, All, Ascends, arith,
}
use crypto_data_aggregator.Prelude.Int.{ℤ, int_order}
use crypto_data_aggregator.Prelude.Order.{text_order, lt, gt, eq, ◌≼◌, ≼_of_not-lt}
use crypto_data_aggregator.Prelude.Keyed.{sorted_by, All-sorted_by, sorted_by-Ascends}
use crypto_data_aggregator.Float.{Float}
use crypto_data_aggregator.Rows.{Trade}
use crypto_data_aggregator.Python.{Result, ok, Json, Python, is_truthy, times, null}
use crypto_data_aggregator.Python.Results.{Ensures, holds, Ensures-read, Ensures-bind}
use crypto_data_aggregator.Sources.Fetch.{with_native}
use crypto_data_aggregator.Sources.Fetch.Loops.{
  KeepsOnly, AllAppended, collect-AllKept, fetch_for-All,
}
use crypto_data_aggregator.Sources.Fetch.Okx
use crypto_data_aggregator.Sources.Fetch.Bitstamp

-- A trade of the symbol and the venue, no earlier than the one time and no later than the other.
pub record IsInWindow {ℓ} {F : Type ℓ} (venue symbol : String) (start_ns end_ns : ℤ) (t : Trade F)
    : Type 0 where
  pub of_venue : t.venue ≡ venue
  pub of_symbol : t.symbol ≡ symbol
  pub from_start : start_ns ≼ t.ts_ns
  pub to_end : t.ts_ns ≼ end_ns

-- What a backfill is to give: trades of the window, by time.
pub record IsBackfill {ℓ} {F : Type ℓ} (venue symbol : String) (start_ns end_ns : ℤ)
    (ts : List (Trade F)) : Type ℓ where
  pub in_window : All (IsInWindow venue symbol start_ns end_ns) ts
  pub by_time : Ascends (λ a b. a.ts_ns ≼ b.ts_ns) ts

sorted_by-IsBackfill {ℓ} :
    {F : Type ℓ} (venue symbol : String) (start_ns end_ns : ℤ) (ts : List (Trade F))
    → All (IsInWindow venue symbol start_ns end_ns) ts
    → IsBackfill venue symbol start_ns end_ns (sorted_by (λ t. t.ts_ns) ts)
sorted_by-IsBackfill venue symbol start_ns end_ns ts h = record {
  in_window = All-sorted_by (λ t. t.ts_ns) _ ts h;
  by_time = sorted_by-Ascends (λ t. t.ts_ns) ts;
}

with_native-Ensures {ℓ κ} :
    {A : Type ℓ} (P : A → Type κ) (a : A) (native : Option String) (f : String → Result A)
    → P a
    → ((n : String) → Ensures P (f n))
    → Ensures P (with_native (ok a) native f)
with_native-Ensures P a none f p h = holds p
with_native-Ensures P a (some n) f p h = elim (Bool-cases (eq n "")) [
  | inl e ↦ rw e (holds p)
  | inr e ↦ rw e (h n)
]

module _ {ℓ} {F : Type ℓ} ⦃fl : Float F⦄ ⦃py : Python F⦄ (symbol : String)
    (start_ns end_ns : ℤ) where
  okx_trade :
      (made_ns : ℕ → ℕ) (i : ℕ) (r : Json F)
      → Ensures
          (KeepsOnly (IsInWindow "okx" symbol start_ns end_ns))
          (Okx.trade_of made_ns symbol start_ns end_ns i r)
  unfolding Okx.trade_of
  okx_trade made_ns i r = Ensures-read _ λ ms.
      elim (Bool-cases (lt (times ms 1_000_000) start_ns)) [
        | inl e ↦ rw e (holds tt)
        | inr e ↦ elim (Bool-cases (gt (times ms 1_000_000) end_ns)) [
          | inl g ↦ rw (e, g) (holds tt)
          | inr g ↦
              rw (e, g)
                (Ensures-read _ λ _. Ensures-read _ λ _. Ensures-read _ λ _. Ensures-read _ λ _.
                  holds (record {
                    of_venue = refl;
                    of_symbol = refl;
                    from_start = ≼_of_not-lt (times ms 1_000_000) start_ns e;
                    to_end = ≼_of_not-lt end_ns (times ms 1_000_000) g;
                  }))
        ]
      ]

  okx_page :
      (server : ℕ → Option (Json F) → Result (Json F)) (made_ns : ℕ → ℕ → ℕ) (n : ℕ)
      (after : Json F)
      → Ensures
          (AllAppended (IsInWindow "okx" symbol start_ns end_ns))
          (Okx.trades_page server made_ns symbol start_ns end_ns n after)
  unfolding Okx.trades_page
  okx_page server made_ns n after = Ensures-read _ λ body. Ensures-read _ λ data_rows.
      elim (Bool-cases (is_truthy data_rows)) [
        | inl e ↦ rw e (
            Ensures-read _ λ rows.
              Ensures-bind (collect-AllKept _ _ (okx_trade (made_ns n)) 0 rows)
                λ out h. Ensures-read _ λ last. holds h)
        | inr e ↦ rw e (holds tt)
      ]

  -- Whatever the server answers, the trades that OKX's `fetch_trades` gives, if it raises nothing, are of
  -- the symbol and the venue, lie between the two times, both included, and are in the order of their
  -- times.
  pub okx-IsBackfill :
      (server : String → ℕ → Option (Json F) → Result (Json F)) (made_ns : ℕ → ℕ → ℕ)
      (native : Option String)
      → Ensures
          (IsBackfill "okx" symbol start_ns end_ns)
          (Okx.fetch_trades server made_ns native symbol start_ns end_ns)
  unfolding Okx.fetch_trades
  okx-IsBackfill server made_ns native =
      with_native-Ensures _ [] native _ (record { in_window = tt; by_time = tt })
        λ inst.
          Ensures-bind
            (fetch_for-All (IsInWindow "okx" symbol start_ns end_ns)
              (Okx.trades_page (server inst) made_ns symbol start_ns end_ns)
              (okx_page (server inst) made_ns) 2000 0 null)
            λ out h. holds (sorted_by-IsBackfill "okx" symbol start_ns end_ns out h)

  bitstamp_trade :
      (made_ns : ℕ → ℕ) (i : ℕ) (r : Json F)
      → Ensures
          (KeepsOnly (IsInWindow "bitstamp" symbol start_ns end_ns))
          (Bitstamp.trade_of made_ns symbol start_ns end_ns i r)
  unfolding Bitstamp.trade_of
  bitstamp_trade made_ns i r = Ensures-read _ λ s.
      let ts_ns = times s 1_000_000_000 in
      elim (Bool-cases (lt ts_ns start_ns || gt ts_ns end_ns)) [
        | inl e ↦ rw e (holds tt)
        | inr e ↦ rw e (
            Ensures-read _ λ _. Ensures-read _ λ _. Ensures-read _ λ _. Ensures-read _ λ _.
              holds (record {
                of_venue = refl;
                of_symbol = refl;
                from_start = ground (arith, e);
                to_end = ground (arith, e);
              }))
      ]

  -- Whatever the server answers, the trades that Bitstamp's `fetch_trades` gives, if it raises nothing, are
  -- of the symbol and the venue, lie between the two times, both included, and are in the order of their
  -- times.
  bitstamp-IsBackfill :
      (server : String → Result (Json F)) (made_ns : ℕ → ℕ) (native : Option String)
      → Ensures
          (IsBackfill "bitstamp" symbol start_ns end_ns)
          (Bitstamp.fetch_trades server made_ns native symbol start_ns end_ns)
  unfolding Bitstamp.fetch_trades
  bitstamp-IsBackfill server made_ns native =
      with_native-Ensures _ [] native _ (record { in_window = tt; by_time = tt })
        λ pair. Ensures-read _ λ rows.
          Ensures-bind (collect-AllKept _ _ (bitstamp_trade made_ns) 0 rows)
            λ out h. holds (sorted_by-IsBackfill "bitstamp" symbol start_ns end_ns out.0 h)
