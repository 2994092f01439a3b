-- ===== src/Sources/Fetch/Candles.antt =====
-- `fetch_klines` of cryptodata/sources/coinbase.py, bitstamp.py and bybit.py.
pub mod Coinbase
pub mod Bitstamp
pub mod Bybit
