-- ===== src/Sources/Fetch/Candles/Bybit.antt =====
-- `fetch_klines` of cryptodata/sources/bybit.py.
use Prim.Native.String.{String}
use crypto_data_aggregator.Prelude.{ℕ, ltb, Option, none, some, List, [], ◌∷◌, if◌then◌else◌}
use crypto_data_aggregator.Prelude.Int.{ℤ, pos, ◌+ℤ◌, int_order}
use crypto_data_aggregator.Prelude.Order.{text_order, lt}
use crypto_data_aggregator.Float.{Float, float_order}
use crypto_data_aggregator.Python.{
  Result, ok, ◌>>=◌, Json, Python, is_truthy, over, iterate, at, size_of, int_at,
}
use crypto_data_aggregator.Sources.Fetch.{collect, Turn, fetch_while, with_native, Kline}
use crypto_data_aggregator.Sources.Fetch.Bybit.{result_list, kline_of}

-- `reversed(rows)`, onto what has been turned round before.
unfoldable pub reversed_onto {ℓ} : {A : Type ℓ} → List A → List A → List A
reversed_onto [] done = done
reversed_onto (x ∷ xs) done = reversed_onto xs (x ∷ done)

module _ {ℓ} {F : Type ℓ} ⦃fl : Float F⦄ ⦃py : Python F⦄ where
  -- A turn of the loop; the cursor is `cursor_ms`.
  unfoldable pub klines_page : (ℕ → ℤ → Result (Json F)) → ℕ → ℤ → Turn (Kline F) ℤ
  unfolding collect kline_of result_list reversed_onto
  klines_page server n cursor_ms = do
    body ← server n cursor_ms
    listed ← result_list body
    if is_truthy listed
        then (do
          rows ← iterate listed
          out ← collect kline_of 0 (reversed_onto rows [])
          size ← size_of listed
          if ltb size 1000
              then ok (out.0, none)
              else (do first ← at 0 listed >>= int_at 0; ok (out.0, some (first +ℤ pos 60_000))))
        else ok ([], none)

  -- On fuel. The server is asked for a ticker and an interval, up to a ms.
  unfoldable pub fetch_klines :
      (String → String → ℤ → ℕ → ℤ → Result (Json F))
      → Option String
      → ℤ
      → ℤ
      → String
      → ℕ
      → Option (Result (List (Kline F)))
  unfolding fetch_while klines_page
  fetch_klines server native start_ns end_ns interval fuel = with_native (some (ok [])) native λ t.
      let end_ms = over end_ns 1_000_000 in
      fetch_while (λ cursor_ms. lt cursor_ms end_ms) (klines_page (server t interval end_ms)) fuel 0
        (over start_ns 1_000_000)
