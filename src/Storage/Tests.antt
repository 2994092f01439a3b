-- ===== src/Storage/Tests.antt =====
-- Runs of the writer, and its theorems at concrete inputs.
use Prim.Native.String.{String}
use crypto_data_aggregator.Prelude.{
  ℕ, zero, suc, ◌/◌, ◌≡◌, refl, ap, ◌⊎◌, true, List, [], ◌∷◌, ◌++◌, map, Perm, length,
}
use crypto_data_aggregator.Prelude.Order.{nat_order, text_order, text_le, pair_le, ≢_of_eq}
use crypto_data_aggregator.Prelude.Dict.{get, put, remove}
use crypto_data_aggregator.Storage.Writer.{
  Row, BufferKey, PartFile, Writer, WriteOutcome, wrote, write_raised, Readings, Event, appended,
  date_str, hour_bucket, row_key, should_flush, part_file, write_rows, flush_key, grown, append,
  flush_keys, flush_all, handle, handle_all, run,
}
use crypto_data_aggregator.Storage.Writer.Columns.{
  cell, IsDistinct, column_arrays, column_arrays_lem,
}
use crypto_data_aggregator.Storage.Writer.Kept.{held, handed, stored}
use crypto_data_aggregator.Storage.Writer.Stopped.{HasRaised, HasFailed, run-perm}
use crypto_data_aggregator.Storage.Writer.Filed.{IsWriter, handle_all-IsWriter}

abbrev day_text : ℕ → String
day_text zero = "1970-01-01"
day_text (suc n) = "later"

abbrev utc_text : ℕ → String
utc_text secs = day_text (secs / 86_400)

abbrev row_at : ℕ → String → ℕ → Row ℕ
row_at ts_ns venue price = record {
  ts_ns = ts_ns;
  symbol = "BTC-USD";
  venue = venue;
  fields = ("ts_ns", ts_ns) ∷ ("price", price) ∷ [];
}

abbrev empty_writer : Writer ℕ
empty_writer = record { batch_rows = 2; batch_seconds = 60; buffers = []; files = []; lost = [] }

abbrev early : Readings
early = record { opened = 100; checked = 200; outcome = wrote 300 }

abbrev first_row : Row ℕ
first_row = row_at 5_000_000_000 "kraken" 10

abbrev second_row : Row ℕ
second_row = row_at 6_000_000_000 "kraken" 11

abbrev third_row : Row ℕ
third_row = row_at 7_000_000_000 "okx" 12

-- The second row of kraken fills a batch; the row of okx waits for the end.
abbrev some_events : List (Event ℕ)
some_events =
    appended "trades" first_row early
    ∷ appended "trades" third_row early
    ∷ appended "trades" second_row early
    ∷ []

abbrev some_outcomes : BufferKey → WriteOutcome
some_outcomes key = wrote 900

-- The final flush of the row of okx raises.
abbrev bad_outcomes : BufferKey → WriteOutcome
bad_outcomes key = write_raised

abbrev summary : PartFile ℕ → String × (String × (ℕ × ℕ))
summary f = (f.venue, (f.date, (f.suffix, length f.rows)))

sizes_of_files :
    map summary (run utc_text some_events some_outcomes empty_writer).writer.files
    ≡ ("kraken", ("1970-01-01", (300, 2))) ∷ ("okx", ("1970-01-01", (900, 1))) ∷ []
unfolding run handle_all handle append grown should_flush flush_key flush_keys flush_all write_rows
    part_file row_key hour_bucket date_str get put remove text_le pair_le
sizes_of_files = refl

lost_row :
    held (run utc_text some_events bad_outcomes empty_writer).writer.lost
    ≡ ("trades", third_row) ∷ []
unfolding run handle_all handle append grown should_flush flush_key flush_keys flush_all write_rows
    part_file row_key hour_bucket date_str get put remove text_le pair_le
lost_row = refl

run-perm_example :
    let e = run utc_text some_events bad_outcomes empty_writer in
    Perm (handed e.unread ++ stored e.writer) (handed some_events ++ stored empty_writer)
    × ((e.raised ≡ true) ⊎ ((e.unread ≡ []) × (e.writer.buffers ≡ [])))
    × ((e.writer.lost ≡ []) ⊎ (HasFailed some_events ⊎ HasRaised bad_outcomes))
run-perm_example = run-perm utc_text some_events bad_outcomes empty_writer

handle_all-IsWriter_example : IsWriter utc_text (handle_all utc_text some_events empty_writer)
handle_all-IsWriter_example =
    handle_all-IsWriter utc_text (λ s t e. ap day_text e) some_events empty_writer (tt, tt)

two_fields : IsDistinct ("ts_ns" ∷ "price" ∷ [])
unfolding text_le
two_fields = ((≢_of_eq "ts_ns" "price" refl, tt), (tt, tt))

column_arrays_lem_example :
    column_arrays ("ts_ns" ∷ "price" ∷ []) (first_row ∷ third_row ∷ [])
    ≡ map (λ name. map (cell name) (first_row ∷ third_row ∷ [])) ("ts_ns" ∷ "price" ∷ [])
column_arrays_lem_example =
    column_arrays_lem ("ts_ns" ∷ "price" ∷ []) (first_row ∷ third_row ∷ []) two_fields
