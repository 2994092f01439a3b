-- ===== src/Storage/Writer/Filed.antt =====
-- Where the rows go, and how large a buffer grows.
use Prim.Native.String.{String}
use crypto_data_aggregator.Prelude.{
  ℕ, ◌/◌, ◌<◌, ◌≡◌, refl, sym, ap, ◌∙◌, subst, inl, inr, some, List, [], ◌∷◌, arith, length, All,
  All-append, All-imp, Bool-cases, Option-cases,
}
use crypto_data_aggregator.Prelude.Order.{nat_order, text_order, pair_order, eq_refl}
use crypto_data_aggregator.Prelude.Dict.{
  get, put, remove, keys, get-put, All-put, All-remove, All-get, remove-put,
}
use crypto_data_aggregator.Storage.Writer.{
  Row, BufferKey, Buffer, PartFile, Writer, WriteOutcome, wrote, write_raised, Readings, Event,
  appended, interval_over, row_key, should_flush, hour_bucket, date_str, write_rows, part_file,
  flush_key, grown, append, flush_keys, flush_all, handle, handle_all,
}

-- All times of an hour lie in one day.
same_day :
    (a b : ℕ)
    → hour_bucket a ≡ hour_bucket b
    → (a / 1_000_000_000) / 86_400 ≡ (b / 1_000_000_000) / 86_400
unfolding hour_bucket
same_day a b h = omega arith

same_date :
    (utc_date : ℕ → String)
    → ((s t : ℕ) → s / 86_400 ≡ t / 86_400 → utc_date s ≡ utc_date t)
    → (a b : ℕ) → hour_bucket a ≡ hour_bucket b
    → date_str utc_date a ≡ date_str utc_date b
unfolding date_str
same_date utc_date by_day a b h = by_day _ _ (same_day a b h)

module _ {ℓ} {V : Type ℓ} where
  abbrev pub IsRowOf : BufferKey → Row V → Type 0
  IsRowOf key r = row_key key.0 r ≡ key

  -- A buffer has rows of its key only, and fewer than a batch.
  abbrev pub IsBufferOf : ℕ → BufferKey × Buffer V → Type 0
  IsBufferOf batch_rows (key, buf) = All (IsRowOf key) buf.rows × (length buf.rows < batch_rows)

  abbrev pub IsFiled : (ℕ → String) → PartFile V → Type 0
  IsFiled utc_date f =
      All
        (λ r.
          (r.symbol ≡ f.symbol)
          × (r.venue ≡ f.venue)
          × (date_str utc_date r.ts_ns ≡ f.date)
          × (hour_bucket r.ts_ns ≡ f.hour))
        f.rows

  abbrev pub IsWriter : (ℕ → String) → Writer V → Type 0
  IsWriter utc_date w = All (IsBufferOf w.batch_rows) w.buffers × All (IsFiled utc_date) w.files

module _ {ℓ} {V : Type ℓ} (utc_date : ℕ → String)
    (by_day : (s t : ℕ) → s / 86_400 ≡ t / 86_400 → utc_date s ≡ utc_date t) where
  write_rows-IsFiled :
      (key : BufferKey) (suffix : ℕ) (rows : List (Row V))
      → All (IsRowOf key) rows
      → All (IsFiled utc_date) (write_rows utc_date key suffix rows)
  unfolding write_rows part_file row_key
  write_rows-IsFiled key suffix [] h = tt
  write_rows-IsFiled (table, (symbol, (venue, hour))) suffix (r ∷ rs) h = (
    All-imp
        (λ x e. (
          ap (λ k. k.1.0) e,
          ap (λ k. k.1.1.0) e,
          same_date utc_date by_day x.ts_ns r.ts_ns (ap (λ k. k.1.1.1) (e ∙ sym h.0)),
          ap (λ k. k.1.1.1) e,
        ))
        (r ∷ rs) h,
    tt,
  )

  -- The flush of one buffer, whatever its size.
  flush_buffer-IsWriter :
      (key : BufferKey) (outcome : WriteOutcome) (buf : Buffer V) (w : Writer V)
      → get key w.buffers ≡ some buf
      → All (IsRowOf key) buf.rows
      → All (IsBufferOf w.batch_rows) (remove key w.buffers)
      → All (IsFiled utc_date) w.files
      → IsWriter utc_date (flush_key utc_date key outcome w).writer
  unfolding flush_key
  flush_buffer-IsWriter key (wrote suffix) buf w e rows others files = rw e (
    others,
    All-append (IsFiled utc_date) w.files (write_rows utc_date key suffix buf.rows) files
        (write_rows-IsFiled key suffix buf.rows rows),
  )
  flush_buffer-IsWriter key write_raised buf w e rows others files = rw e (others, files)

  flush_key-IsWriter :
      (key : BufferKey) (outcome : WriteOutcome) (w : Writer V)
      → IsWriter utc_date w
      → IsWriter utc_date (flush_key utc_date key outcome w).writer
  flush_key-IsWriter key outcome w h = elim (Option-cases (get key w.buffers)) [
    | inl e ↦ unfold flush_key in rw e h
    | inr (buf, e) ↦
        flush_buffer-IsWriter key outcome buf w e
          (All-get (IsBufferOf w.batch_rows) key buf w.buffers e h.0).0
          (All-remove (IsBufferOf w.batch_rows) key w.buffers h.0) h.1
  ]

  flush_keys-IsWriter :
      (ks : List BufferKey) (outcomes : BufferKey → WriteOutcome) (w : Writer V)
      → IsWriter utc_date w
      → IsWriter utc_date (flush_keys utc_date ks outcomes w).writer
  unfolding flush_keys
  flush_keys-IsWriter [] outcomes w h = h
  flush_keys-IsWriter (k ∷ ks) outcomes w h =
      let r = flush_key utc_date k (outcomes k) w in
      let one = flush_key-IsWriter k (outcomes k) w h in
      elim (Bool-cases r.raised) [
        | inl e ↦ rw e one
        | inr e ↦ rw e (flush_keys-IsWriter ks outcomes r.writer one)
      ]

  grown-IsRowOf :
      (table : String) (row : Row V) (opened : ℕ) (w : Writer V)
      → IsWriter utc_date w
      → All (IsRowOf (row_key table row)) (grown utc_date table row opened w).rows
  unfolding grown row_key
  grown-IsRowOf table row opened w h = elim (Option-cases (get (row_key table row) w.buffers)) [
    | inl e ↦ rw e (refl, tt)
    | inr (buf, e) ↦ rw e (
        All-append (IsRowOf (row_key table row)) buf.rows (row ∷ [])
          (All-get (IsBufferOf w.batch_rows) (row_key table row) buf w.buffers e h.0).0 (refl, tt))
  ]

  append-IsWriter :
      (table : String) (row : Row V) (now : Readings) (w : Writer V)
      → IsWriter utc_date w
      → IsWriter utc_date (append utc_date table row now w).writer
  unfolding append
  append-IsWriter table row now w h =
      let key = row_key table row in
      let buf = grown utc_date table row now.opened w in
      let rows = grown-IsRowOf table row now.opened w h in
      let added : Writer V = record w { buffers = put key buf w.buffers } in
      let found : get key (put key buf w.buffers) ≡ some buf =
        get-put key key buf w.buffers ∙ rw (eq_refl key) refl in
      elim (Bool-cases (should_flush w buf now.checked)) [
        | inl e ↦ rw e (
            flush_buffer-IsWriter key now.outcome buf added found rows
              (subst (All (IsBufferOf w.batch_rows)) (sym (remove-put key buf w.buffers))
                (All-remove (IsBufferOf w.batch_rows) key w.buffers h.0))
              h.1)
        | inr e ↦ rw e (
          All-put (IsBufferOf w.batch_rows) key buf w.buffers
              (rows, unfold should_flush in ground (arith, e)) h.0,
          h.1,
        )
      ]

  -- Whatever the workers and the flush interval do, in any order, and whichever flushes raise: every buffer has fewer rows than a
  -- batch, and every row in a file has the symbol, the venue, the UTC date and the hour of the file's
  -- path, if a date depends on the day alone and all this holds at the start.
  pub handle_all-IsWriter :
      (events : List (Event V)) (w : Writer V)
      → IsWriter utc_date w
      → IsWriter utc_date (handle_all utc_date events w)
  unfolding handle_all handle flush_all
  handle_all-IsWriter [] w h = h
  handle_all-IsWriter (appended table row now ∷ events) w h =
      handle_all-IsWriter events (append utc_date table row now w).writer
        (append-IsWriter table row now w h)
  handle_all-IsWriter (interval_over outcomes ∷ events) w h =
      handle_all-IsWriter events (flush_all utc_date outcomes w).writer
        (flush_keys-IsWriter (keys w.buffers) outcomes w h)
