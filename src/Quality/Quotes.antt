-- ===== src/Quality/Quotes.antt =====
-- `check_quote_invariants` of cryptodata/quality/checks.py, over a list of quotes.
use crypto_data_aggregator.Prelude.{ℕ, Bool, not, ◌||◌, ◌&&◌, List, ◌++◌, length, select}
use crypto_data_aggregator.Prelude.Order.{lt, gt, eq}
use crypto_data_aggregator.Float.{Float, float_order, nought, mean}
use crypto_data_aggregator.Rows.{Quote}
use crypto_data_aggregator.Quality.{Issue, info, minor, major, critical, issue_if}

module _ {ℓ} {F : Type ℓ} ⦃fl : Float F⦄ where
  -- The row tests.
  unfoldable pub is_crossed : Quote F → Bool
  is_crossed q = lt q.ask_px (fl.sub q.bid_px (fl.of_decimal 1 12))

  unfoldable pub is_locked : Quote F → Bool
  is_locked q = eq q.ask_px q.bid_px

  unfoldable pub has_nonpositive_side : Quote F → Bool
  has_nonpositive_side q = float_order.le q.bid_px nought || float_order.le q.ask_px nought

  -- A middle of 0 is NaN in the column, and then nothing is wide.
  unfoldable pub is_wide : Quote F → Bool
  is_wide q =
      let mid = mean q.bid_px q.ask_px in
      not (eq mid nought)
      && gt (fl.mul (fl.div (fl.sub q.ask_px q.bid_px) mid) (fl.of_nat 10_000)) (fl.of_nat 500)

  abbrev pub quotes_with : (Quote F → Bool) → List (Quote F) → ℕ
  quotes_with p quotes = length (select p quotes)

  unfoldable pub check_quote_invariants : List (Quote F) → List (Issue F)
  unfolding issue_if is_crossed is_locked has_nonpositive_side is_wide
  check_quote_invariants quotes =
      issue_if (quotes_with is_crossed quotes) "quote.crossed_book" major "ask < bid"
      ++ issue_if (quotes_with is_locked quotes) "quote.locked_book" info "ask == bid (locked)"
      ++ issue_if (quotes_with has_nonpositive_side quotes) "quote.nonpositive_price" critical
          "bid or ask <= 0"
      ++ issue_if (quotes_with is_wide quotes) "quote.implausible_spread" minor "spread > 500 bps"
