-- ===== src/Storage/Writer.antt =====
-- cryptodata/storage/parquet.py (`PartitionedParquetWriter`) and cryptodata/core/writer.py. The files
-- are the calls of `pq.write_table` so far. `utc_date` stands for `time.strftime` of `time.gmtime`, and
-- every reading of the clock is an argument; the lock makes each operation one step. Whether something
-- raises between the pop of a buffer and the end of its write (an unknown table, a value that its column
-- refuses, the file system) is an argument too: a `WriteOutcome`. The buffers that are popped then are
-- kept in `lost`, which is no field of the code.
pub mod Columns
pub mod Kept
pub mod Stopped
pub mod Filed
use Prim.Native.String.{String}
use crypto_data_aggregator.Prelude.{
  ℕ, ◌+◌, ◌*◌, ◌/◌, ◌==◌, Bool, true, false, not, ◌||◌, Option, none, some, List, [], ◌∷◌, ◌++◌,
  leb, length, if◌then◌else◌,
}
use crypto_data_aggregator.Prelude.Order.{nat_order, text_order, pair_order}
use crypto_data_aggregator.Prelude.Dict.{get, put, remove, keys}

-- A row: the entries that the writer reads, and the whole dict.
pub record Row {ℓ} (V : Type ℓ) : Type ℓ where
  pub ts_ns : ℕ
  pub symbol : String
  pub venue : String
  pub fields : List (String × V)

-- (table, symbol, venue, hour)
abbrev pub BufferKey : Type 0
BufferKey = String × (String × (String × ℕ))

pub record Buffer {ℓ} (V : Type ℓ) : Type ℓ where
  pub rows : List (Row V)
  pub opened_at_ns : ℕ
  pub hour : ℕ

-- One call of `pq.write_table`: the partition of its path, the parts of its name, and the rows.
pub record PartFile {ℓ} (V : Type ℓ) : Type ℓ where
  pub table : String
  pub symbol : String
  pub venue : String
  pub date : String
  pub hour : ℕ
  pub suffix : ℕ
  pub rows : List (Row V)

pub record Writer {ℓ} (V : Type ℓ) : Type ℓ where
  pub batch_rows : ℕ
  pub batch_seconds : ℕ
  pub buffers : List (BufferKey × Buffer V)
  pub files : List (PartFile V)
  -- The buffers whose rows are in no file, since their flush raised.
  pub lost : List (BufferKey × Buffer V)

-- What comes of `_flush_key` after the pop: a file whose name has the clock's reading, or an exception.
pub data WriteOutcome : Type 0 where
  wrote : ℕ → WriteOutcome
  write_raised : WriteOutcome

-- A call that may flush: the writer after it, and whether it raises.
pub record Flushed {ℓ} (V : Type ℓ) : Type ℓ where
  pub writer : Writer V
  pub raised : Bool

-- What `append` meets: the clock's readings for a new buffer and for the age of the buffer, and the
-- outcome of a flush.
pub record Readings : Type 0 where
  pub opened : ℕ
  pub checked : ℕ
  pub outcome : WriteOutcome

unfoldable pub date_str : (ℕ → String) → ℕ → String
date_str utc_date ts_ns = utc_date (ts_ns / 1_000_000_000)

unfoldable pub hour_bucket : ℕ → ℕ
hour_bucket ts_ns = ts_ns / (3_600 * 1_000_000_000)

module _ {ℓ} {V : Type ℓ} where
  unfoldable pub row_key : String → Row V → BufferKey
  unfolding hour_bucket
  row_key table row = (table, (row.symbol, (row.venue, hour_bucket row.ts_ns)))

  abbrev pub buffer_or_new : ℕ → ℕ → Option (Buffer V) → Buffer V
  buffer_or_new hour opened none = record { rows = []; opened_at_ns = opened; hour = hour }
  buffer_or_new hour opened (some buf) = buf

  -- `len(buf.rows) >= self.batch_rows or (ns_now() - buf.opened_at_ns) >= ...`, with the subtraction
  -- moved to the other side.
  unfoldable pub should_flush : Writer V → Buffer V → ℕ → Bool
  should_flush w buf checked =
      leb w.batch_rows (length buf.rows)
      || leb (buf.opened_at_ns + w.batch_seconds * 1_000_000_000) checked

module _ {ℓ} {V : Type ℓ} (utc_date : ℕ → String) where
  -- The file of a buffer that is not empty; its date is the first row's.
  unfoldable pub part_file : BufferKey → ℕ → Row V → List (Row V) → PartFile V
  unfolding date_str
  part_file (table, (symbol, (venue, hour))) suffix r rs = record {
    table = table;
    symbol = symbol;
    venue = venue;
    date = date_str utc_date r.ts_ns;
    hour = hour;
    suffix = suffix;
    rows = r ∷ rs;
  }

  unfoldable pub write_rows : BufferKey → ℕ → List (Row V) → List (PartFile V)
  unfolding part_file
  write_rows key suffix [] = []
  write_rows key suffix (r ∷ rs) = part_file key suffix r rs ∷ []

  -- An empty buffer is not written.
  abbrev pub flush_buffer : BufferKey → WriteOutcome → Option (Buffer V) → Writer V → Flushed V
  flush_buffer key outcome none w = record { writer = w; raised = false }
  flush_buffer key (wrote suffix) (some buf) w = record {
    writer = record w {
      buffers = remove key w.buffers;
      files = w.files ++ write_rows key suffix buf.rows;
    };
    raised = false;
  }
  flush_buffer key write_raised (some buf) w = record {
    writer = record w { buffers = remove key w.buffers; lost = w.lost ++ ((key, buf) ∷ []) };
    raised = not (length buf.rows == 0);
  }

  -- `_flush_key`
  unfoldable pub flush_key : BufferKey → WriteOutcome → Writer V → Flushed V
  unfolding write_rows
  flush_key key outcome w = flush_buffer key outcome (get key w.buffers) w

  -- An exception ends the caller's loop.
  abbrev pub and_then : Flushed V → Flushed V → Flushed V
  and_then r next = if r.raised then r else next

  -- The buffer of the row's key, after the row is appended to it.
  unfoldable pub grown : String → Row V → ℕ → Writer V → Buffer V
  unfolding row_key
  grown table row opened w =
      let buf = buffer_or_new (hour_bucket row.ts_ns) opened (get (row_key table row) w.buffers) in
      record buf { rows = buf.rows ++ (row ∷ []) }

  unfoldable pub append : String → Row V → Readings → Writer V → Flushed V
  unfolding grown should_flush flush_key
  append table row now w =
      let key = row_key table row in
      let buf = grown table row now.opened w in
      let added = record w { buffers = put key buf w.buffers } in
      if should_flush w buf now.checked
      then flush_key key now.outcome added
      else record { writer = added; raised = false }

  unfoldable pub append_many : String → List (Row V × Readings) → Writer V → Flushed V
  unfolding append
  append_many table [] w = record { writer = w; raised = false }
  append_many table ((row, now) ∷ rows) w =
      let r = append table row now w in and_then r (append_many table rows r.writer)

  -- `for key in keys: self._flush_key(key)`, with the outcome for each key.
  unfoldable pub flush_keys : List BufferKey → (BufferKey → WriteOutcome) → Writer V → Flushed V
  unfolding flush_key
  flush_keys [] outcomes w = record { writer = w; raised = false }
  flush_keys (key ∷ more) outcomes w =
      let r = flush_key key (outcomes key) w in and_then r (flush_keys more outcomes r.writer)

  unfoldable pub flush_all : (BufferKey → WriteOutcome) → Writer V → Flushed V
  unfolding flush_keys
  flush_all outcomes w = flush_keys (keys w.buffers) outcomes w

-- What happens to an `AsyncWriter`: a worker appends a row, or the flush interval runs out.
pub data Event {ℓ} (V : Type ℓ) : Type ℓ where
  appended : String → Row V → Readings → Event V
  interval_over : (BufferKey → WriteOutcome) → Event V

-- The end of `AsyncWriter.run`, with the events that come after it.
pub record RunEnd {ℓ} (V : Type ℓ) : Type ℓ where
  pub writer : Writer V
  pub raised : Bool
  pub unread : List (Event V)

module _ {ℓ} {V : Type ℓ} (utc_date : ℕ → String) where
  -- What an event leaves of the writer. An exception goes to the caller: to the worker that appends, or to
  -- `AsyncWriter.run`.
  unfoldable pub handle : Event V → Writer V → Writer V
  handle (appended table row now) w = (append utc_date table row now w).writer
  handle (interval_over outcomes) w = (flush_all utc_date outcomes w).writer

  unfoldable pub handle_all : List (Event V) → Writer V → Writer V
  unfolding handle
  handle_all [] w = w
  handle_all (e ∷ events) w = handle_all events (handle e w)

  -- The flush of `finally`, after which `run` is over.
  abbrev pub end_run : Bool → List (Event V) → (BufferKey → WriteOutcome) → Writer V → RunEnd V
  end_run is_raising unread outcomes w =
      let r = flush_all utc_date outcomes w in
      record { writer = r.writer; raised = is_raising || r.raised; unread = unread }

  -- `AsyncWriter.run`: the events until it is stopped or a flush of it raises, and the flush of its
  -- `finally`, with the outcomes of the latter.
  unfoldable pub run : List (Event V) → (BufferKey → WriteOutcome) → Writer V → RunEnd V
  unfolding handle_all
  run [] outcomes w = end_run false [] outcomes w
  run (appended table row now ∷ events) outcomes w =
      run events outcomes (append utc_date table row now w).writer
  run (interval_over at_interval ∷ events) outcomes w =
      let r = flush_all utc_date at_interval w in
      let rest = run events outcomes r.writer in
      if r.raised then end_run true events outcomes r.writer else rest
