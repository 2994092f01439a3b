-- ===== src/Storage/Writer/Kept.antt =====
-- What the buffers and the files hold together, against the rows that came in.
use mathlib.Core.List.{append-nil, append_assoc}
use mathlib.Core.List.Perm
use Prim.Native.String.{String}
use crypto_data_aggregator.Prelude.{
  ℕ, ◌≡◌, refl, sym, ap, ◌∙◌, inl, inr, ◌⊎◌, true, Option, none, some, List, [], ◌∷◌, ◌++◌, map,
  Perm, Bool-cases, Option-cases,
}
use crypto_data_aggregator.Prelude.Order.{nat_order, text_order, pair_order, eq, eq→≡, eq_refl}
use crypto_data_aggregator.Prelude.Dict.{get, put, remove, keys}
use crypto_data_aggregator.Prelude.Perms.{swap_blocks}
use crypto_data_aggregator.Storage.Writer.{
  Row, BufferKey, Buffer, PartFile, Writer, WriteOutcome, wrote, write_raised, Readings, Event,
  appended, interval_over, row_key, should_flush, write_rows, part_file, flush_key, grown, append,
  flush_keys,
}

module _ {ℓ} {V : Type ℓ} where
  -- Rows with the table that they are for.
  abbrev pub tagged : String → List (Row V) → List (String × Row V)
  tagged table = map (λ r. (table, r))

  abbrev pub held : List (BufferKey × Buffer V) → List (String × Row V)
  held [] = []
  held ((key, buf) ∷ d) = tagged key.0 buf.rows ++ held d

  abbrev pub filed : List (PartFile V) → List (String × Row V)
  filed [] = []
  filed (f ∷ files) = tagged f.table f.rows ++ filed files

  -- The rows in lost buffers, in files and in buffers.
  abbrev pub stored : Writer V → List (String × Row V)
  stored w = held w.lost ++ (filed w.files ++ held w.buffers)

  -- The rows that the workers hand over.
  abbrev pub handed : List (Event V) → List (String × Row V)
  handed [] = []
  handed (appended table row now ∷ events) = (table, row) ∷ handed events
  handed (interval_over outcomes ∷ events) = handed events

  abbrev rows_or_none : Option (Buffer V) → List (Row V)
  rows_or_none none = []
  rows_or_none (some buf) = buf.rows

  filed-append : (fs gs : List (PartFile V)) → filed (fs ++ gs) ≡ filed fs ++ filed gs
  filed-append [] gs = refl
  filed-append (f ∷ fs) gs =
      ap (◌++◌ (tagged f.table f.rows)) (filed-append fs gs)
      ∙ sym (append_assoc (tagged f.table f.rows) (filed fs) (filed gs))

  held-append : (c d : List (BufferKey × Buffer V)) → held (c ++ d) ≡ held c ++ held d
  held-append [] d = refl
  held-append ((key, buf) ∷ c) d =
      ap (◌++◌ (tagged key.0 buf.rows)) (held-append c d)
      ∙ sym (append_assoc (tagged key.0 buf.rows) (held c) (held d))

  tagged-snoc :
      (table : String) (rows : List (Row V)) (row : Row V) (rest : List (String × Row V))
      → Perm
          (tagged table (rows ++ (row ∷ [])) ++ rest)
          ((table, row) ∷ (tagged table rows ++ rest))
  tagged-snoc table [] row rest = Perm.rfl
  tagged-snoc table (r ∷ rows) row rest =
      Perm.trans (Perm.cons (table, r) (tagged-snoc table rows row rest))
        (swap_blocks ((table, r) ∷ []) ((table, row) ∷ []) (tagged table rows ++ rest))

  held-put :
      (key : BufferKey) (row : Row V) (buf : Buffer V) (d : List (BufferKey × Buffer V))
      → buf.rows ≡ rows_or_none (get key d) ++ (row ∷ [])
      → Perm (held (put key buf d)) ((key.0, row) ∷ held d)
  unfolding get put
  held-put key row buf [] e = rw e Perm.rfl
  held-put key row buf ((k, old) ∷ d) e = elim (Bool-cases (eq k key)) [
    | inl t ↦
        let same : buf.rows ≡ old.rows ++ (row ∷ []) = rw t at e in
        rw (t, same, eq→≡ k key t) (tagged-snoc key.0 old.rows row (held d))
    | inr t ↦
        let ih = held-put key row buf d (rw t at e) in
        rw t (
          Perm.trans (Perm.append_left (tagged k.0 old.rows) ih)
            (swap_blocks (tagged k.0 old.rows) ((key.0, row) ∷ []) (held d)))
  ]

  held-remove :
      (key : BufferKey) (buf : Buffer V) (d : List (BufferKey × Buffer V))
      → get key d ≡ some buf
      → Perm (held d) (tagged key.0 buf.rows ++ held (remove key d))
  unfolding get remove
  held-remove key buf [] e = cc
  held-remove key buf ((k, old) ∷ d) e = elim (Bool-cases (eq k key)) [
    | inl t ↦ let same : old ≡ buf = cc (rw t at e) in rw (t, same, eq→≡ k key t) Perm.rfl
    | inr t ↦
        let ih = held-remove key buf d (rw t at e) in
        rw t (
          Perm.trans (Perm.append_left (tagged k.0 old.rows) ih)
            (swap_blocks (tagged k.0 old.rows) (tagged key.0 buf.rows) (held (remove key d))))
  ]

module _ {ℓ} {V : Type ℓ} (utc_date : ℕ → String) where
  filed-write_rows :
      (key : BufferKey) (suffix : ℕ) (rows : List (Row V))
      → filed (write_rows utc_date key suffix rows) ≡ tagged key.0 rows
  unfolding write_rows part_file
  filed-write_rows key suffix [] = refl
  filed-write_rows (table, (symbol, (venue, hour))) suffix (r ∷ rs) =
      append-nil (tagged table (r ∷ rs))

  flush_key-stored :
      (key : BufferKey) (outcome : WriteOutcome) (w : Writer V)
      → Perm (stored (flush_key utc_date key outcome w).writer) (stored w)
  unfolding flush_key
  flush_key-stored key (wrote suffix) w = elim (Option-cases (get key w.buffers)) [
    | inl e ↦ rw e Perm.rfl
    | inr (buf, e) ↦
        let new = write_rows utc_date key suffix buf.rows in
        rw
          (
            e,
            filed-append w.files new,
            append_assoc (filed w.files) (filed new) (held (remove key w.buffers)),
            filed-write_rows key suffix buf.rows,
          )
          (Perm.append_left (held w.lost)
            (Perm.append_left (filed w.files) (Perm.symm (held-remove key buf w.buffers e))))
  ]
  flush_key-stored key write_raised w = elim (Option-cases (get key w.buffers)) [
    | inl e ↦ rw e Perm.rfl
    | inr (buf, e) ↦
        let rows = tagged key.0 buf.rows in
        let rest = held (remove key w.buffers) in
        rw
          (
            e,
            held-append w.lost ((key, buf) ∷ []),
            append-nil rows,
            append_assoc (held w.lost) rows (filed w.files ++ rest),
          )
          (Perm.append_left (held w.lost) (
            Perm.trans (swap_blocks rows (filed w.files) rest)
              (Perm.append_left (filed w.files) (Perm.symm (held-remove key buf w.buffers e)))))
  ]

  pub flush_keys-stored :
      (ks : List BufferKey) (outcomes : BufferKey → WriteOutcome) (w : Writer V)
      → Perm (stored (flush_keys utc_date ks outcomes w).writer) (stored w)
  unfolding flush_keys
  flush_keys-stored [] outcomes w = Perm.rfl
  flush_keys-stored (k ∷ ks) outcomes w =
      let r = flush_key utc_date k (outcomes k) w in
      let one = flush_key-stored k (outcomes k) w in
      elim (Bool-cases r.raised) [
        | inl e ↦ rw e one
        | inr e ↦ rw e (Perm.trans (flush_keys-stored ks outcomes r.writer) one)
      ]

  grown-rows :
      (table : String) (row : Row V) (opened : ℕ) (w : Writer V)
      → (grown utc_date table row opened w).rows
        ≡ rows_or_none (get (row_key table row) w.buffers) ++ (row ∷ [])
  unfolding grown
  grown-rows table row opened w = elim (Option-cases (get (row_key table row) w.buffers)) [
    | inl e ↦ rw e refl
    | inr (buf, e) ↦ rw e refl
  ]

  pub append-stored :
      (table : String) (row : Row V) (now : Readings) (w : Writer V)
      → Perm (stored (append utc_date table row now w).writer) ((table, row) ∷ stored w)
  unfolding append row_key
  append-stored table row now w =
      let key = row_key table row in
      let one = (table, row) ∷ [] in
      let buf = grown utc_date table row now.opened w in
      let added : Writer V = record w { buffers = put key buf w.buffers } in
      let kept : Perm (stored added) ((table, row) ∷ stored w) =
        Perm.trans
          (Perm.append_left (held w.lost) (
            Perm.trans
              (Perm.append_left (filed w.files)
                (held-put key row buf w.buffers (grown-rows table row now.opened w)))
              (swap_blocks (filed w.files) one (held w.buffers))))
          (swap_blocks (held w.lost) one (filed w.files ++ held w.buffers)) in
      elim (Bool-cases (should_flush w buf now.checked)) [
        | inl e ↦ rw e (Perm.trans (flush_key-stored key now.outcome added) kept)
        | inr e ↦ rw e kept
      ]

  found :
      (k : BufferKey) (buf : Buffer V) (d : List (BufferKey × Buffer V)) (w : Writer V)
      → w.buffers ≡ (k, buf) ∷ d
      → get k w.buffers ≡ some buf
  unfolding get
  found k buf d w e = ap (get k) e ∙ rw (eq_refl k) refl

  left :
      (k : BufferKey) (buf : Buffer V) (d : List (BufferKey × Buffer V)) (w : Writer V)
      → w.buffers ≡ (k, buf) ∷ d
      → remove k w.buffers ≡ d
  unfolding remove
  left k buf d w e = ap (remove k) e ∙ rw (eq_refl k) refl

  flush_key-first :
      (k : BufferKey) (outcome : WriteOutcome) (buf : Buffer V) (d : List (BufferKey × Buffer V))
      (w : Writer V)
      → w.buffers ≡ (k, buf) ∷ d
      → (flush_key utc_date k outcome w).writer.buffers ≡ d
  unfolding flush_key
  flush_key-first k (wrote suffix) buf d w e = rw (found k buf d w e) (left k buf d w e)
  flush_key-first k write_raised buf d w e = rw (found k buf d w e) (left k buf d w e)

  -- A flush of all keys raises, or it leaves no buffer.
  pub flush_keys-empty :
      (outcomes : BufferKey → WriteOutcome) (d : List (BufferKey × Buffer V)) (w : Writer V)
      → w.buffers ≡ d
      → let r = flush_keys utc_date (keys d) outcomes w in
        (r.raised ≡ true) ⊎ (r.writer.buffers ≡ [])
  unfolding flush_keys
  flush_keys-empty outcomes [] w e = inr e
  flush_keys-empty outcomes ((k, buf) ∷ d) w e =
      let r = flush_key utc_date k (outcomes k) w in
      elim (Bool-cases r.raised) [
        | inl t ↦ rw t (inl t)
        | inr t ↦
            rw t (flush_keys-empty outcomes d r.writer (flush_key-first k (outcomes k) buf d w e))
      ]
