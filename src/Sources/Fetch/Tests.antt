-- ===== src/Sources/Fetch/Tests.antt =====
-- The theorems on backfills at concrete inputs.
use Prim.Native.String.{String}
use crypto_data_aggregator.Prelude.{
  ℕ, zero, suc, ◌≡◌, refl, Option, some, List, [], ◌∷◌, arith, map,
}
use crypto_data_aggregator.Prelude.Int.{ℤ, pos}
use crypto_data_aggregator.Prelude.Order.{text_order, text_le}
use crypto_data_aggregator.Float.Fixed.{Fixed, fixed, fixed_float}
use crypto_data_aggregator.Python.{
  Result, ok, raise, Json, integer, decimal, text, ◌>>=◌, get_or, iterate, float_item, item,
  to_float, is_truthy, or_else, int_item, to_int, times, str_get, last_at, int_get,
}
use crypto_data_aggregator.Python.Results.{Ensures}
use crypto_data_aggregator.Sources.{get_or_else}
use crypto_data_aggregator.Rows.{Trade}
use crypto_data_aggregator.Sources.Fetch
use crypto_data_aggregator.Sources.Fetch.Loops.{HasEnded}
use crypto_data_aggregator.Sources.Fetch.Ends.{fetch_trades-HasEnded}
use crypto_data_aggregator.Sources.Fetch.Windows.{IsBackfill, okx-IsBackfill}
use crypto_data_aggregator.Sources.Samples.{python_fixed, list, dict}

-- A server with one page of a trade, and a last cursor that never moves on.
abbrev kraken_server : String → ℕ → ℤ → Result (Json Fixed)
kraken_server pair n since = ok (
    dict (
      (
        "result",
        dict (
            (
              "XXBTZUSD",
              list (
                  list (
                    decimal (fixed 9)
                    ∷ decimal (fixed 1)
                    ∷ decimal (fixed 2)
                    ∷ text "b"
                    ∷ text "m"
                    ∷ text ""
                    ∷ text "77"
                    ∷ [])
                  ∷ []),
            )
            ∷ ("last", integer since)
            ∷ []),
      )
      ∷ []))

fetch_trades-HasEnded_example : HasEnded (
    Fetch.Kraken.fetch_trades kraken_server
      (λ n i. 0)
      (some "XXBTZUSD")
      "BTC-USD"
      (pos 2)
      (pos 5)
      3)
fetch_trades-HasEnded_example =
    fetch_trades-HasEnded kraken_server (λ n i. 0) (some "XXBTZUSD") "BTC-USD" (pos 2) (pos 5) 3
      (omega arith)

abbrev okx_fill : ℕ → String → Json Fixed
okx_fill ms id = dict (
    ("ts", integer (pos ms))
    ∷ ("px", decimal (fixed 9))
    ∷ ("sz", decimal (fixed 1))
    ∷ ("side", text "buy")
    ∷ ("tradeId", text id)
    ∷ [])

-- Pages go back in time; the last one reaches beyond the start.
abbrev okx_server : String → ℕ → Option (Json Fixed) → Result (Json Fixed)
okx_server inst zero after = ok (dict (("data", list (okx_fill 9 "4" ∷ okx_fill 6 "3" ∷ [])) ∷ []))
okx_server inst (suc n) after =
    ok (dict (("data", list (okx_fill 5 "2" ∷ okx_fill 1 "1" ∷ [])) ∷ []))

abbrev times_of : Result (List (Trade Fixed)) → List ℤ
times_of (ok ts) = map (λ t. t.ts_ns) ts
times_of (raise e) = []

okx_window :
    times_of (
      Fetch.Okx.fetch_trades okx_server
        (λ n i. 0)
        (some "BTC-USDT")
        "BTC-USD"
        (pos 2_000_000)
        (pos 8_000_000))
    ≡ pos 5_000_000 ∷ pos 6_000_000 ∷ []
unfolding Fetch.Okx.fetch_trades text_le ◌>>=◌ get_or_else get_or is_truthy or_else iterate int_item
    item to_int times float_item to_float str_get last_at
okx_window = refl

okx-IsBackfill_example : Ensures (IsBackfill "okx" "BTC-USD" (pos 2_000_000) (pos 8_000_000)) (
    Fetch.Okx.fetch_trades okx_server
      (λ n i. 0)
      (some "BTC-USDT")
      "BTC-USD"
      (pos 2_000_000)
      (pos 8_000_000))
okx-IsBackfill_example =
    okx-IsBackfill "BTC-USD" (pos 2_000_000) (pos 8_000_000) okx_server (λ n i. 0) (some "BTC-USDT")

abbrev bitstamp_row : ℕ → Json Fixed
bitstamp_row s =
    dict (
      ("date", integer (pos s)) ∷ ("price", decimal (fixed 9)) ∷ ("amount", decimal (fixed 1)) ∷ [])

abbrev bitstamp_server : String → Result (Json Fixed)
bitstamp_server pair = ok (list (bitstamp_row 9 ∷ bitstamp_row 4 ∷ bitstamp_row 3 ∷ []))

bitstamp_window :
    times_of (
      Fetch.Bitstamp.fetch_trades bitstamp_server
        (λ i. 0)
        (some "btcusd")
        "BTC-USD"
        (pos 2_000_000_000)
        (pos 8_000_000_000))
    ≡ pos 3_000_000_000 ∷ pos 4_000_000_000 ∷ []
unfolding Fetch.Bitstamp.fetch_trades text_le ◌>>=◌ iterate int_item item to_int times float_item
    to_float int_get get_or str_get
bitstamp_window = refl
