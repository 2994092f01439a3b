-- ===== src/Storage/Schemas.antt =====
-- cryptodata/storage/schemas.py: the schema of every table. `conforms` is what building a column of the
-- schema's type from a row's values asks for: the fields by name and in order, whole numbers within the
-- width, and a null only where the field is nullable.
use Prim.Native.String.{String}
use crypto_data_aggregator.Prelude.{ℕ, ◌^◌, Bool, true, false, ◌&&◌, Option, List, [], ◌∷◌, ltb}
use crypto_data_aggregator.Prelude.Int.{ℤ, pos, negsuc}
use crypto_data_aggregator.Prelude.Order.{text_order, eq}
use crypto_data_aggregator.Prelude.Dict.{get}

-- What a row holds under a key; `levels` are the (px, sz) structs of one side of a book.
pub data Value {ℓ} (F : Type ℓ) : Type ℓ where
  whole : ℤ → Value F
  number : F → Value F
  text : String → Value F
  levels : List (F × F) → Value F
  null : Value F

pub data FieldType : Type 0 where
  int64 : FieldType
  int32 : FieldType
  int16 : FieldType
  int8 : FieldType
  float64 : FieldType
  string : FieldType
  list_of_levels : FieldType

pub record Field : Type 0 where
  pub name : String
  pub field_type : FieldType
  pub nullable : Bool

abbrev pub Schema : Type 0
Schema = List Field

abbrev required : String → FieldType → Field
required name t = record { name = name; field_type = t; nullable = false }

abbrev optional : String → FieldType → Field
optional name t = record { name = name; field_type = t; nullable = true }

abbrev pub trades_schema : Schema
trades_schema =
    required "ts_ns" int64
    ∷ required "recv_ns" int64
    ∷ required "symbol" string
    ∷ required "venue" string
    ∷ required "price" float64
    ∷ required "size" float64
    ∷ required "side" int8
    ∷ optional "trade_id" string
    ∷ required "ingested_at_ns" int64
    ∷ []

abbrev pub quotes_schema : Schema
quotes_schema =
    required "ts_ns" int64
    ∷ required "recv_ns" int64
    ∷ required "symbol" string
    ∷ required "venue" string
    ∷ required "bid_px" float64
    ∷ required "ask_px" float64
    ∷ required "bid_sz" float64
    ∷ required "ask_sz" float64
    ∷ required "ingested_at_ns" int64
    ∷ []

abbrev pub book_l2_snapshot_schema : Schema
book_l2_snapshot_schema =
    required "ts_ns" int64
    ∷ required "recv_ns" int64
    ∷ required "symbol" string
    ∷ required "venue" string
    ∷ required "depth" int16
    ∷ required "bids" list_of_levels
    ∷ required "asks" list_of_levels
    ∷ required "ingested_at_ns" int64
    ∷ []

abbrev pub funding_schema : Schema
funding_schema =
    required "ts_ns" int64
    ∷ required "recv_ns" int64
    ∷ required "symbol" string
    ∷ required "venue" string
    ∷ required "funding_rate" float64
    ∷ optional "mark_price" float64
    ∷ optional "next_ts_ns" int64
    ∷ required "ingested_at_ns" int64
    ∷ []

abbrev pub open_interest_schema : Schema
open_interest_schema =
    required "ts_ns" int64
    ∷ required "recv_ns" int64
    ∷ required "symbol" string
    ∷ required "venue" string
    ∷ optional "oi_base" float64
    ∷ optional "oi_quote" float64
    ∷ required "ingested_at_ns" int64
    ∷ []

abbrev pub bars_1s_schema : Schema
bars_1s_schema =
    required "ts_ns" int64
    ∷ required "symbol" string
    ∷ required "venue" string
    ∷ required "open" float64
    ∷ required "high" float64
    ∷ required "low" float64
    ∷ required "close" float64
    ∷ required "volume" float64
    ∷ required "vwap" float64
    ∷ required "trades" int32
    ∷ required "sources_mask" int32
    ∷ optional "ingested_at_ns" int64
    ∷ []

abbrev pub bars_ref_schema : Schema
bars_ref_schema =
    required "ts_ns" int64
    ∷ required "symbol" string
    ∷ required "venue" string
    ∷ required "interval" string
    ∷ required "open" float64
    ∷ required "high" float64
    ∷ required "low" float64
    ∷ required "close" float64
    ∷ required "volume" float64
    ∷ required "trades" int32
    ∷ optional "ingested_at_ns" int64
    ∷ []

-- `SCHEMAS`
abbrev pub schemas : List (String × Schema)
schemas =
    ("trades", trades_schema)
    ∷ ("quotes", quotes_schema)
    ∷ ("book_l2_snapshot", book_l2_snapshot_schema)
    ∷ ("funding", funding_schema)
    ∷ ("open_interest", open_interest_schema)
    ∷ ("bars_1s", bars_1s_schema)
    ∷ ("bars_ref", bars_ref_schema)
    ∷ []

-- `none` is the `KeyError` of an unknown table.
unfoldable pub schema_for : String → Option Schema
schema_for table = get table schemas

-- `- b <= z < b`
abbrev pub within : ℕ → ℤ → Bool
within b (pos n) = ltb n b
within b (negsuc n) = ltb n b

module _ {ℓ} {F : Type ℓ} where
  unfoldable pub fits : FieldType → Value F → Bool
  fits int64 (whole z) = within (2 ^ 63) z
  fits int32 (whole z) = within (2 ^ 31) z
  fits int16 (whole z) = within (2 ^ 15) z
  fits int8 (whole z) = within (2 ^ 7) z
  fits float64 (number x) = true
  fits string (text s) = true
  fits list_of_levels (levels ls) = true
  fits t v = false

  unfoldable pub fits_field : Field → Value F → Bool
  unfolding fits
  fits_field f null = f.nullable
  fits_field f (whole z) = fits f.field_type (whole z)
  fits_field f (number x) = fits f.field_type (number x)
  fits_field f (text s) = fits f.field_type (text s)
  fits_field f (levels ls) = fits f.field_type (levels ls)

  unfoldable pub conforms : Schema → List (String × Value F) → Bool
  unfolding fits_field
  conforms [] [] = true
  conforms [] (cell ∷ row) = false
  conforms (f ∷ schema) [] = false
  conforms (f ∷ schema) ((name, v) ∷ row) = eq f.name name && fits_field f v && conforms schema row
