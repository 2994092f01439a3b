-- ===== src/Sources/Tests.antt =====
-- The theorems on streams at concrete inputs.
use Prim.Native.String.{String}
use crypto_data_aggregator.Prelude.{
  ◌≡◌, refl, true, false, Option, none, some, List, [], ◌∷◌, All, if◌then◌else◌, map,
}
use crypto_data_aggregator.Prelude.Int.{ℤ, pos, negsuc}
use crypto_data_aggregator.Prelude.Order.{text_order, text_le, pair_le, eq}
use crypto_data_aggregator.Prelude.Dict.{get, put}
use crypto_data_aggregator.Float.Fixed.{abs_fixed, Fixed, fixed, fixed_float}
use crypto_data_aggregator.Symbols.{Index}
use crypto_data_aggregator.Python.{
  Result, ok, raise, http_error, Json, integer, decimal, text, ◌>>=◌, get_or, is_text, iterate,
  float_item, item, to_float, text_of, or_else, int_item, to_int, times, at, is_dict, int_at,
  size_of, is_str, float_at, is_list,
}
use crypto_data_aggregator.Sources.{get_or_else, when_known, ms_to_ns, for_rows}
use crypto_data_aggregator.Sources.Yields.{Yields}
use crypto_data_aggregator.Sources.Streams.{IsStreamed}
use crypto_data_aggregator.Rows.{Trade}
use crypto_data_aggregator.Sources.Book
use crypto_data_aggregator.Sources.Book.Invariant.{IsSnapshot}
use crypto_data_aggregator.Sources.Book.Turns.{AreBooks}
use crypto_data_aggregator.Sources.Book.Snapshots.{kraken-IsSnapshot}
use crypto_data_aggregator.Sources.Best.{Best, quotes_from}
use crypto_data_aggregator.Sources.Best.Floor.{IsTwoSided, HasFloor, quotes_from-HasFloor}
use crypto_data_aggregator.Sources.Bybit
use crypto_data_aggregator.Sources.Polls.{bybit_poll-raise}
use crypto_data_aggregator.Sources.Okx
use crypto_data_aggregator.Sources.Wire.{Fill, okx_frames, sent_trades, stream_trades-okx_frames}
use crypto_data_aggregator.Sources.Registry
use crypto_data_aggregator.Sources.Registry.{name_of, session_of, stream_trades, bitfinex_spot}
use crypto_data_aggregator.Sources.Registry.Safety.{stream_trades-IsStreamed}
use crypto_data_aggregator.Sources.Samples.{
  strokes, show_fixed, text_or_empty, python_fixed, list, dict, read-show_fixed, read-strokes,
  plain_session, kraken_messages,
}

abbrev some_index : Index
some_index = record {
  by_canonical = [];
  reverse =
      (("bitfinex", "tBTCUSD"), "BTC-USD")
      ∷ (("okx", "BTC-USDT"), "BTC-USD")
      ∷ (("coinbase", "BTC-USD"), "BTC-USD")
      ∷ (("gemini", "BTCUSD"), "BTC-USD")
      ∷ [];
}

abbrev bitfinex_messages : List (Option (Json Fixed))
bitfinex_messages =
    some (
      dict (
        ("event", text "subscribed")
        ∷ ("channel", text "trades")
        ∷ ("symbol", text "tBTCUSD")
        ∷ ("chanId", integer (pos 7))
        ∷ []))
    ∷ none
    ∷ some (list (integer (pos 7) ∷ text "hb" ∷ []))
    ∷ some (
        list (
          integer (pos 7)
          ∷ text "te"
          ∷ list (integer (pos 11) ∷ integer (pos 5) ∷ decimal (negsuc 3) ∷ decimal (fixed 9) ∷ [])
          ∷ []))
    ∷ []

abbrev brief : Trade Fixed → String × (ℤ × (Fixed × ℤ))
brief t = (t.symbol, (t.ts_ns, (t.size, t.side)))

-- A sale of four ten-thousandths comes through, and only that.
bitfinex_sale :
    map brief
      (stream_trades bitfinex_spot
        (session_of python_fixed some_index bitfinex_spot (λ n. n) (λ n i. n))
        bitfinex_messages).0
    ≡ ("BTC-USD", (pos 5_000_000, (pos 4, negsuc 0))) ∷ []
unfolding stream_trades is_dict ◌>>=◌ get_or is_text text_le text_of Registry.canon_of pair_le
    int_item item to_int int_at at size_of is_str for_rows get put float_at to_float times abs_fixed
    is_list
bitfinex_sale = refl

stream_trades-IsStreamed_example :
    All
      (IsStreamed
        (name_of bitfinex_spot)
        (session_of python_fixed some_index bitfinex_spot (λ n. n) (λ n i. n))
        4)
      (stream_trades bitfinex_spot
        (session_of python_fixed some_index bitfinex_spot (λ n. n) (λ n i. n))
        bitfinex_messages).0
stream_trades-IsStreamed_example =
    stream_trades-IsStreamed some_index (λ n. n) (λ n i. n) bitfinex_spot bitfinex_messages

kraken_bids :
    map (λ s. s.bids) (Book.Kraken.stream_book 5 plain_session kraken_messages).0
    ≡ ((fixed 9, fixed 2) ∷ []) ∷ []
unfolding Book.Kraken.stream_book ◌>>=◌ get_or is_text text_le iterate Book.for_rows_with float_item
    item to_float
kraken_bids = refl

kraken-IsSnapshot_example :
    Yields (IsSnapshot 5) AreBooks (Book.Kraken.stream_book 5 plain_session kraken_messages)
kraken-IsSnapshot_example = kraken-IsSnapshot 5 plain_session kraken_messages

abbrev coinbase_messages : List (Option (Json Fixed))
coinbase_messages =
    some (
      dict (
        ("channel", text "l2_data")
        ∷ (
          "events",
          list (
              dict (
                ("product_id", text "BTC-USD")
                ∷ (
                  "updates",
                  list (
                      dict (
                        ("side", text "offer")
                        ∷ ("price_level", decimal (fixed 8))
                        ∷ ("new_quantity", decimal (fixed 1))
                        ∷ [])
                      ∷ []),
                )
                ∷ [])
              ∷ []),
        )
        ∷ []))
    ∷ []

abbrev gemini_messages : List (Option (Json Fixed))
gemini_messages =
    some (
      dict (
        ("type", text "l2_updates")
        ∷ ("symbol", text "BTCUSD")
        ∷ (
          "changes",
          list (
              list (text "buy" ∷ decimal (fixed 9) ∷ decimal (fixed 0) ∷ [])
              ∷ list (text "buy" ∷ decimal (fixed 8) ∷ decimal (fixed 1) ∷ [])
              ∷ []),
        )
        ∷ []))
    ∷ []

abbrev gemini_best : List (String × Best Fixed)
gemini_best =
    ("BTCUSD", record { bid = fixed 9; ask = fixed 10; bid_sz = fixed 1; ask_sz = fixed 1 }) ∷ []

quotes_from-HasFloor_example :
    Yields IsTwoSided
      (HasFloor "BTCUSD" (fixed 9))
      (quotes_from plain_session 0 gemini_best gemini_messages)
unfolding get text_le
quotes_from-HasFloor_example =
    quotes_from-HasFloor "BTCUSD" (fixed 9) plain_session 0 gemini_best gemini_messages refl

-- The level at 9 has been taken away, and still is the bid that is quoted.
gemini_stale_bid :
    map (λ q. q.bid_px) (quotes_from plain_session 0 gemini_best gemini_messages).0 ≡ fixed 9 ∷ []
unfolding quotes_from ◌>>=◌ get_or text_le text_of iterate to_float
gemini_stale_bid = refl

abbrev bybit_server : String → Result (Option (Json Fixed))
bybit_server native =
    if eq "ETHUSDT" native
    then raise http_error
    else ok (
        some (
          dict (
            (
              "result",
              dict (
                  (
                    "list",
                    list (
                        dict (
                          ("timestamp", integer (pos 5)) ∷ ("openInterest", decimal (fixed 3)) ∷ [])
                        ∷ []),
                  )
                  ∷ []),
            )
            ∷ [])))

bybit_polled :
    map
      (λ o. o.ts_ns)
      (Bybit.poll_open_interest bybit_server
        (plain_session 0)
        ("BTCUSDT" ∷ "ETHUSDT" ∷ "XRPUSDT" ∷ []))
    ≡ pos 5_000_000 ∷ []
unfolding Bybit.poll_open_interest ◌>>=◌ text_le get_or_else get_or or_else when_known at item
    ms_to_ns to_int float_item to_float times
bybit_polled = refl

bybit_poll-raise_example :
    Bybit.poll_open_interest bybit_server (plain_session 0) ("BTCUSDT" ∷ "ETHUSDT" ∷ "XRPUSDT" ∷ [])
    ≡ Bybit.poll_open_interest bybit_server (plain_session 0) ("BTCUSDT" ∷ [])
unfolding text_le
bybit_poll-raise_example =
    bybit_poll-raise bybit_server (plain_session 0) http_error "ETHUSDT" refl ("BTCUSDT" ∷ [])
      ("XRPUSDT" ∷ [])

abbrev some_fills : List (Fill Fixed)
some_fills =
    record {
      inst_id = "BTC-USDT";
      ms = 4;
      px = fixed 1;
      sz = pos 3;
      is_buy = false;
      trade_id = "1";
    }
    ∷ record {
      inst_id = "BTC-USDT";
      ms = 5;
      px = fixed 1;
      sz = pos 2;
      is_buy = true;
      trade_id = "2";
    }
    ∷ []

stream_trades-okx_frames_example :
    Okx.stream_trades plain_session
      (okx_frames strokes show_fixed (none ∷ some ("BTC-USDT", some_fills) ∷ []))
    ≡ (
      sent_trades plain_session (λ s. "BTC-USD") 0 (none ∷ some ("BTC-USDT", some_fills) ∷ []),
      ok tt,
    )
unfolding text_or_empty
stream_trades-okx_frames_example =
    stream_trades-okx_frames strokes show_fixed read-strokes read-show_fixed (λ s. refl)
      plain_session (λ s. "BTC-USD") (none ∷ some ("BTC-USDT", some_fills) ∷ [])
      ((refl, (refl, tt)), tt)
