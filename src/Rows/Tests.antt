-- ===== src/Rows/Tests.antt =====
-- The rows of a trade, as stored.
use crypto_data_aggregator.Prelude.{ℕ, ◌≡◌, refl, true, some}
use crypto_data_aggregator.Prelude.Int.{pos, negsuc}
use crypto_data_aggregator.Storage.Schemas.{Schema, schema_for, conforms}
use crypto_data_aggregator.Rows.{Item, trade_item, to_row, table_of}
use crypto_data_aggregator.Rows.Conforms.{to_row-conforms}

abbrev some_trade : Item ℕ
some_trade = trade_item (record {
  ts_ns = pos 1_700_000_000_000_000_000;
  recv_ns = pos 1_700_000_000_000_000_500;
  symbol = "BTC-USD";
  venue = "kraken";
  price = 37_000;
  size = 2;
  side = negsuc 0;
  trade_id = some "t1";
  ingested_at_ns = pos 1_700_000_000_000_000_900;
})

to_row-conforms_example :
    (schema : Schema) × (schema_for (table_of some_trade) ≡ some schema)
    × (conforms schema (to_row some_trade) ≡ true)
to_row-conforms_example = to_row-conforms some_trade (refl, refl, refl, refl)
