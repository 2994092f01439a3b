-- ===== src/Lib.antt =====
-- A multi-venue crypto market-data aggregator, the Python package `cryptodata`: adapters turn each
-- venue's messages into canonical rows, a worker per stream hands them to a partitioned writer, and the
-- stored trades become one-second bars, for each venue and for the consolidated tape "agg". This library
-- models the parts that compute and keep state, and leaves the network, DuckDB and parquet outside.
--
-- Prelude and its modules stand for what the code takes from Python and its standard library: lists,
-- `dict` as an association list in insertion order, `set` and `sorted`, grouping and counting (`Groups`),
-- total orders (`Order`), bits and signed numbers. Float is Python's `float` as an interface with the laws the theorems use, and
-- Float/Fixed is a concrete type that meets them, on which all runs and examples evaluate.
--
-- Trade: the rows of cryptodata/sources/base.py (`Trade`) and cryptodata/storage/schemas.py (`Bar`).
-- Symbols: cryptodata/core/symbols.py. Kinds is about `perpetuals` and `spots`.
-- Consolidated: cryptodata/core/consolidated.py. Merge is `merge_trades`, Filter is `_robust_filter` with
--   `statistics.median` in Median, and Bars is `build_agg_bars`. The stream of Merge is the input of
--   Bars, which calls Filter for each second and `venue_bitmask_index` of Symbols for the masks.
-- Storage: cryptodata/storage/. Schemas is schemas.py, and Writer is the `PartitionedParquetWriter` of
--   parquet.py with its client cryptodata/core/writer.py, whose life is a list of events. Whether a flush raises
--   is part of the events, and Stopped is about the rows that are lost then.
-- Rows: the row types of cryptodata/sources/base.py, which the schemas of Storage describe.
-- RateLimit: cryptodata/core/ratelimit.py.
-- Health: cryptodata/core/health.py.
-- Worker: cryptodata/core/worker.py.
-- Quality: cryptodata/quality/. The module itself has the first two bar checks of checks.py, which meet
--   the bars of Consolidated in Tape, and the score of report.py (Grades). Gaps, Prints, Quotes and Venues
--   are the checks of gaps and flat lines, of trades, of quotes and between venues; Checks is `run_checks`.
--   Coverage is `_completeness` and `_agg_coverage_of_union`, and Report is `score_day` with the summary and
--   `write_daily_quality` in Summary.
-- Numerics: what the checks take from NumPy, `round` and f-strings, as a parameter.
-- Corrections: cryptodata/core/corrections.py, the log of corrections and the point-in-time symbol map.
--   Seeds and Mappings are about the symbol map.
-- Builds: scripts/build_bars_1s.py, which takes Aggregate and Consolidated together for a day's trades;
--   Covered sets what it makes against the coverage of Quality.
-- Resample: cryptodata/core/resample.py, over the bins of pandas as a parameter.
-- Python: exceptions and the values that the JSON decoder gives, with the language's operations on them.
-- Sources: cryptodata/sources/, a module for each adapter's file (Binance, BinanceFutures, Bybit, Okx,
--   Coinbase, Kraken, Bitstamp, Gemini, Bitfinex) with its streams of trades, quotes, funding and open
--   interest; Book with `stream_book` of kraken.py, coinbase.py and binance.py; Best with `stream_quotes`
--   of gemini.py; Fetch with the backfills (`fetch_trades`, `fetch_funding` and `fetch_klines`, some of
--   the latter in Fetch/Candles); Connect with the pauses of the reconnects; and Registry with registry.py,
--   which takes the adapters together. Trades, Streams, Channels, Polls and Wire are about what the
--   streams yield, and Samples is the Python on which their examples evaluate. The rows that come out are
--   those of Rows, and the tickers are read by the tables of Symbols.
-- Aggregate: cryptodata/core/aggregate.py. Venue is `bars_from_trades` and Second is `aggregate_second`.
-- Query: Books is `book_quality` of cryptodata/query/books.py, which meets the books of Sources in Books/Clean.
--
-- State and loops. A loop over a list is a function that takes the loop's variables and the rest of the
-- list. The heap of `merge_trades` is a bag of entries with a pop of the least, since `heapq` promises
-- no more; its loop runs on fuel, one unit for each trade of the input, since every round puts out one.
-- A stream is a loop over the frames of one connection: each body gives what it yields and either the
-- state that it goes on with or the exception that ends it. A backfill's loop of requests runs on fuel, or
-- on the count of its `range`; Kraken's needs at most one turn for each nanosecond of its window.
-- The clock (`time.time_ns`) is an argument. An absent value (`None`, and the
-- NaN that stands for an absent median) is `none`.
--
-- Not modelled: floating-point results outside the laws of `IsFloat` (overflow, NaN inputs), the SQL text
-- given to DuckDB (the tables of Corrections are lists of rows, and the queries of the report are
-- arguments), parquet files, sockets and HTTP (what they deliver is an argument), the asyncio scheduler,
-- logging, metrics, and the scripts but build_bars_1s.py.
--
-- Every theorem of the list stands under the module that it names, and each is applied to concrete
-- inputs in the module Tests of its part.
pub mod Prelude
pub mod Float
pub mod Numerics
pub mod Trade
pub mod Symbols
pub mod Consolidated
pub mod Aggregate
pub mod Storage
pub mod Rows
pub mod RateLimit
pub mod Quality
pub mod Health
pub mod Worker
pub mod Corrections
pub mod Builds
pub mod Resample
pub mod Python
pub mod Sources
pub mod Query
