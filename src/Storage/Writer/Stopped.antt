-- ===== src/Storage/Writer/Stopped.antt =====
-- What `AsyncWriter.run` leaves, with and without exceptions.
use mathlib.Core.List.Perm
use Prim.Native.String.{String}
use crypto_data_aggregator.Prelude.{
  ℕ, ◌≡◌, refl, ◌∙◌, inl, inr, ◌⊎◌, true, List, [], ◌∷◌, ◌++◌, Perm, Bool-cases, Option-cases,
}
use crypto_data_aggregator.Prelude.Order.{nat_order, text_order, pair_order}
use crypto_data_aggregator.Prelude.Dict.{get, keys}
use crypto_data_aggregator.Prelude.Perms.{swap_blocks}
use crypto_data_aggregator.Storage.Writer.{
  Row, BufferKey, Writer, WriteOutcome, wrote, write_raised, Readings, Event, appended,
  interval_over, should_flush, flush_key, row_key, grown, append, flush_keys, flush_all, run,
}
use crypto_data_aggregator.Storage.Writer.Kept.{
  stored, handed, flush_keys-stored, append-stored, flush_keys-empty,
}

-- Some flush of a list of keys, or of an event, raises.
abbrev pub HasRaised : (BufferKey → WriteOutcome) → Type 0
HasRaised outcomes = (key : BufferKey) × (outcomes key ≡ write_raised)

abbrev pub HasFailed {ℓ} : {V : Type ℓ} → List (Event V) → Type 0
HasFailed [] = ⊥
HasFailed (appended table row now ∷ events) = (now.outcome ≡ write_raised) ⊎ HasFailed events
HasFailed (interval_over outcomes ∷ events) = HasRaised outcomes ⊎ HasFailed events

module _ {ℓ} {V : Type ℓ} (utc_date : ℕ → String) where
  flush_key-lost :
      (key : BufferKey) (outcome : WriteOutcome) (w : Writer V)
      → ((flush_key utc_date key outcome w).writer.lost ≡ w.lost) ⊎ (outcome ≡ write_raised)
  unfolding flush_key
  flush_key-lost key write_raised w = inr refl
  flush_key-lost key (wrote suffix) w = elim (Option-cases (get key w.buffers)) [
    | inl e ↦ rw e (inl refl)
    | inr (buf, e) ↦ rw e (inl refl)
  ]

  flush_keys-lost :
      (ks : List BufferKey) (outcomes : BufferKey → WriteOutcome) (w : Writer V)
      → ((flush_keys utc_date ks outcomes w).writer.lost ≡ w.lost) ⊎ HasRaised outcomes
  unfolding flush_keys
  flush_keys-lost [] outcomes w = inl refl
  flush_keys-lost (k ∷ ks) outcomes w =
      let r = flush_key utc_date k (outcomes k) w in
      elim (flush_key-lost k (outcomes k) w) [
        | inr failed ↦ inr (k, failed)
        | inl same ↦ elim (Bool-cases r.raised) [
          | inl e ↦ rw e (inl same)
          | inr e ↦ rw e (elim (flush_keys-lost ks outcomes r.writer) [
            | inl more ↦ inl (more ∙ same)
            | inr failed ↦ inr failed
          ])
        ]
      ]

  append-lost :
      (table : String) (row : Row V) (now : Readings) (w : Writer V)
      → ((append utc_date table row now w).writer.lost ≡ w.lost) ⊎ (now.outcome ≡ write_raised)
  unfolding append
  append-lost table row now w =
      elim (Bool-cases (should_flush w (grown utc_date table row now.opened w) now.checked)) [
        | inl e ↦ rw e (flush_key-lost (row_key table row) now.outcome _)
        | inr e ↦ rw e (inl refl)
      ]

  run-stored :
      (events : List (Event V)) (outcomes : BufferKey → WriteOutcome) (w : Writer V)
      → let e = run utc_date events outcomes w in
        Perm (handed e.unread ++ stored e.writer) (handed events ++ stored w)
  unfolding run flush_all
  run-stored [] outcomes w = flush_keys-stored utc_date (keys w.buffers) outcomes w
  run-stored (appended table row now ∷ events) outcomes w =
      Perm.trans (run-stored events outcomes (append utc_date table row now w).writer) (
        Perm.trans (Perm.append_left (handed events) (append-stored utc_date table row now w))
          (swap_blocks (handed events) ((table, row) ∷ []) (stored w)))
  run-stored (interval_over at_interval ∷ events) outcomes w =
      let r = flush_all utc_date at_interval w in
      let one = flush_keys-stored utc_date (keys w.buffers) at_interval w in
      elim (Bool-cases r.raised) [
        | inl e ↦ rw e (
            Perm.append_left (handed events) (
              Perm.trans (flush_keys-stored utc_date (keys r.writer.buffers) outcomes r.writer)
                one))
        | inr e ↦ rw e (
            Perm.trans (run-stored events outcomes r.writer) (Perm.append_left (handed events) one))
      ]

  run_ended :
      (events : List (Event V)) (outcomes : BufferKey → WriteOutcome) (w : Writer V)
      → let e = run utc_date events outcomes w in
        (e.raised ≡ true) ⊎ ((e.unread ≡ []) × (e.writer.buffers ≡ []))
  unfolding run flush_all
  run_ended [] outcomes w = elim (flush_keys-empty utc_date outcomes w.buffers w refl) [
    | inl e ↦ inl e
    | inr e ↦ inr (refl, e)
  ]
  run_ended (appended table row now ∷ events) outcomes w =
      run_ended events outcomes (append utc_date table row now w).writer
  run_ended (interval_over at_interval ∷ events) outcomes w =
      let r = flush_all utc_date at_interval w in
      elim (Bool-cases r.raised) [
        | inl e ↦ rw e (inl refl)
        | inr e ↦ rw e (run_ended events outcomes r.writer)
      ]

  run-lost :
      (events : List (Event V)) (outcomes : BufferKey → WriteOutcome) (w : Writer V)
      → ((run utc_date events outcomes w).writer.lost ≡ w.lost)
        ⊎ (HasFailed events ⊎ HasRaised outcomes)
  unfolding run flush_all
  run-lost [] outcomes w = elim (flush_keys-lost (keys w.buffers) outcomes w) [
    | inl same ↦ inl same
    | inr failed ↦ inr (inr failed)
  ]
  run-lost (appended table row now ∷ events) outcomes w = elim (append-lost table row now w) [
    | inr failed ↦ inr (inl (inl failed))
    | inl same ↦ elim (run-lost events outcomes (append utc_date table row now w).writer) [
      | inl more ↦ inl (more ∙ same)
      | inr (inl failed) ↦ inr (inl (inr failed))
      | inr (inr failed) ↦ inr (inr failed)
    ]
  ]
  run-lost (interval_over at_interval ∷ events) outcomes w =
      let r = flush_all utc_date at_interval w in
      elim (flush_keys-lost (keys w.buffers) at_interval w) [
        | inr failed ↦ inr (inl (inl failed))
        | inl same ↦ elim (Bool-cases r.raised) [
          | inl e ↦ rw e (elim (flush_keys-lost (keys r.writer.buffers) outcomes r.writer) [
            | inl more ↦ inl (more ∙ same)
            | inr failed ↦ inr (inr failed)
          ])
          | inr e ↦ rw e (elim (run-lost events outcomes r.writer) [
            | inl more ↦ inl (more ∙ same)
            | inr (inl failed) ↦ inr (inl (inr failed))
            | inr (inr failed) ↦ inr (inr failed)
          ])
        ]
      ]

  -- Whatever raises, every row that the writer held or was handed is accounted for when `run` ends, once
  -- and under the table that it was handed for: it is in a file, in a buffer, in a buffer that was lost
  -- when its flush raised, or it comes after the end of `run`. `run` ends with an exception, or it has
  -- seen all events and leaves no buffer. And no buffer is lost unless the outcome of some flush is an
  -- exception.
  pub run-perm :
      (events : List (Event V)) (outcomes : BufferKey → WriteOutcome) (w : Writer V)
      → let e = run utc_date events outcomes w in
        Perm (handed e.unread ++ stored e.writer) (handed events ++ stored w)
        × ((e.raised ≡ true) ⊎ ((e.unread ≡ []) × (e.writer.buffers ≡ [])))
        × ((e.writer.lost ≡ w.lost) ⊎ (HasFailed events ⊎ HasRaised outcomes))
  run-perm events outcomes w =
      (run-stored events outcomes w, run_ended events outcomes w, run-lost events outcomes w)
