-- ===== src/Sources/Polls.antt =====
-- The polls of open interest of Bybit and Binance's futures, when a request fails.
use Prim.Native.String.{String}
use crypto_data_aggregator.Prelude.{ℕ, ◌+◌, ◌≡◌, refl, ap, Option, none, some, List, [], ◌∷◌, ◌++◌}
use crypto_data_aggregator.Float.{Float}
use crypto_data_aggregator.Python.{Result, ok, raise, Exception, Json, Python, ◌>>=◌}
use crypto_data_aggregator.Sources.{Session, Emission, for_rows, emit_row}
use crypto_data_aggregator.Sources.Bybit
use crypto_data_aggregator.Sources.BinanceFutures

emit_row_congr {ℓ} :
    {B : Type ℓ} (p : Result (Option B)) (r s : Emission B (Unit {0}))
    → r.0 ≡ s.0
    → (emit_row p r).0 ≡ (emit_row p s).0
emit_row_congr (raise e) r s h = refl
emit_row_congr (ok none) r s h = h
emit_row_congr (ok (some b)) r s h = ap (◌∷◌ b) h

module _ {ℓ κ} {A : Type ℓ} {B : Type κ} (parse : ℕ → A → Result (Option B)) where
  -- What is yielded before a row that raises, whatever the rows after it.
  for_rows-raise :
      (e : Exception) (i : ℕ) (xs ys : List A) (r : A)
      → ((j : ℕ) → parse j r ≡ raise e)
      → (for_rows parse i (xs ++ (r ∷ ys))).0 ≡ (for_rows parse i xs).0
  unfolding for_rows
  for_rows-raise e i [] ys r h = ap (λ p. (emit_row p (for_rows parse (i + 1) ys)).0) (h i)
  for_rows-raise e i (x ∷ xs) ys r h =
      emit_row_congr (parse i x) _ _ (for_rows-raise e (i + 1) xs ys r h)

module _ {ℓ} {F : Type ℓ} ⦃fl : Float F⦄ ⦃py : Python F⦄
    (server : String → Result (Option (Json F))) (session : Session) (e : Exception)
    (native : String) (h : server native ≡ raise e) (before after : List String) where
  -- A request that raises ends a turn of Bybit's poll of open interest and raises nothing further: the
  -- turn yields what it would for the tickers before it alone.
  pub bybit_poll-raise :
      Bybit.poll_open_interest server session (before ++ (native ∷ after))
      ≡ Bybit.poll_open_interest server session before
  unfolding Bybit.poll_open_interest Bybit.open_interest_of ◌>>=◌
  bybit_poll-raise =
      for_rows-raise (Bybit.open_interest_of server session) e 0 before after native
        (λ j. rw h refl)

  -- The same of the poll of Binance's futures.
  pub binance_futures_poll-raise :
      BinanceFutures.poll_open_interest server session (before ++ (native ∷ after))
      ≡ BinanceFutures.poll_open_interest server session before
  unfolding BinanceFutures.poll_open_interest BinanceFutures.open_interest_of ◌>>=◌
  binance_futures_poll-raise =
      for_rows-raise (BinanceFutures.open_interest_of server session) e 0 before after native
        (λ j. rw h refl)
