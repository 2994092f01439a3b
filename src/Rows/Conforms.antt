-- ===== src/Rows/Conforms.antt =====
-- The rows of the streams against the schemas of their tables.
use Prim.Native.String.{String}
use crypto_data_aggregator.Prelude.{◌^◌, ◌≡◌, refl, true, Option, none, some, ltb}
use crypto_data_aggregator.Prelude.Int.{ℤ}
use crypto_data_aggregator.Prelude.Order.{text_order, text_le}
use crypto_data_aggregator.Prelude.Dict.{get}
use crypto_data_aggregator.Storage.Schemas.{
  Schema, schema_for, string, float64, int64, conforms, within, fits, fits_field, trades_schema,
  quotes_schema, book_l2_snapshot_schema, funding_schema, open_interest_schema,
}
use crypto_data_aggregator.Rows.{
  Item, trade_item, quote_item, book_snapshot_item, funding_item, open_interest_item, to_row,
  table_of, trade_to_row, quote_to_row, book_snapshot_to_row, funding_to_row, open_interest_to_row,
  text_or_null, number_or_null, whole_or_null,
}

abbrev pub IsTime : ℤ → Type 0
IsTime n = within (2 ^ 63) n ≡ true

abbrev pub IsTimeOrNone : Option ℤ → Type 0
IsTimeOrNone none = Unit
IsTimeOrNone (some n) = IsTime n

-- The times fit 64 bits, the side fits a byte, and the depth two bytes.
abbrev pub IsInRange {ℓ} : {F : Type ℓ} → Item F → Type 0
IsInRange (trade_item t) =
    IsTime t.ts_ns × IsTime t.recv_ns × IsTime t.ingested_at_ns × (within (2 ^ 7) t.side ≡ true)
IsInRange (quote_item q) = IsTime q.ts_ns × IsTime q.recv_ns × IsTime q.ingested_at_ns
IsInRange (book_snapshot_item b) =
    IsTime b.ts_ns × IsTime b.recv_ns × IsTime b.ingested_at_ns × (ltb b.depth (2 ^ 15) ≡ true)
IsInRange (funding_item f) =
    IsTime f.ts_ns × IsTime f.recv_ns × IsTime f.ingested_at_ns × IsTimeOrNone f.next_ts_ns
IsInRange (open_interest_item o) = IsTime o.ts_ns × IsTime o.recv_ns × IsTime o.ingested_at_ns

module _ {ℓ} (F : Type ℓ) where
  fits_text_or_null :
      (name : String) (o : Option String)
      → fits_field {F = F}
          (record { name = name; field_type = string; nullable = true })
          (text_or_null o)
        ≡ true
  unfolding fits_field fits
  fits_text_or_null name none = refl
  fits_text_or_null name (some s) = refl

  fits_number_or_null :
      (name : String) (o : Option F)
      → fits_field
          (record { name = name; field_type = float64; nullable = true })
          (number_or_null o)
        ≡ true
  unfolding fits_field fits
  fits_number_or_null name none = refl
  fits_number_or_null name (some x) = refl

  fits_whole_or_null :
      (name : String) (o : Option ℤ)
      → IsTimeOrNone o
      → fits_field {F = F}
          (record { name = name; field_type = int64; nullable = true })
          (whole_or_null o)
        ≡ true
  unfolding fits_field fits
  fits_whole_or_null name none h = refl
  fits_whole_or_null name (some n) h = h

module _ {ℓ} {F : Type ℓ} where
  -- Every row that a stream yields conforms to the schema of the table that its stream is stored in, if
  -- its numbers fit their columns.
  pub to_row-conforms :
      (i : Item F)
      → IsInRange i
      → (schema : Schema) × (schema_for (table_of i) ≡ some schema)
        × (conforms schema (to_row i) ≡ true)
  unfolding to_row table_of schema_for get trade_to_row quote_to_row book_snapshot_to_row
      funding_to_row open_interest_to_row conforms fits_field fits text_le
  to_row-conforms (trade_item t) (a, b, c, d) =
      (trades_schema, refl, rw (a, b, c, d, fits_text_or_null F "trade_id" t.trade_id) refl)
  to_row-conforms (quote_item t) (a, b, c) = (quotes_schema, refl, rw (a, b, c) refl)
  to_row-conforms (book_snapshot_item t) (a, b, c, d) =
      (book_l2_snapshot_schema, refl, rw (a, b, c, d) refl)
  to_row-conforms (funding_item t) (a, b, c, d) = (
    funding_schema,
    refl,
    rw
        (
          a,
          b,
          c,
          fits_number_or_null F "mark_price" t.mark_price,
          fits_whole_or_null F "next_ts_ns" t.next_ts_ns d,
        )
        refl,
  )
  to_row-conforms (open_interest_item t) (a, b, c) = (
    open_interest_schema,
    refl,
    rw
        (
          a,
          b,
          c,
          fits_number_or_null F "oi_base" t.oi_base,
          fits_number_or_null F "oi_quote" t.oi_quote,
        )
        refl,
  )
