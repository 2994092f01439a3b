-- ===== src/Worker.antt =====
-- cryptodata/core/worker.py: the loop of `IngestWorker.run`. What each call of `_make_stream` yields, how
-- it ends and what `random.random` returns is an argument, one for each round, and so is which of the calls on
-- an item raises; the metrics and the log are left out.
pub mod Restarts
mod Tests
use crypto_data_aggregator.Prelude.{ℕ, ◌+◌, Bool, true, false, List, [], ◌∷◌, ◌++◌}
use crypto_data_aggregator.Prelude.Order.{minimum}
use crypto_data_aggregator.Float.{Float, float_order}

-- What an exception is to `run`: an ordinary one, a cancellation, or a `NotImplementedError`.
pub data Fault : Type 0 where
  crashed : Fault
  cancelled : Fault
  unsupported : Fault

-- How the body of the loop fares with an item: it gets through, or `to_row`, `writer.append`, or what
-- comes after it (the table lookup of the symbol and `TRACKER.record`) raises.
pub data Handling : Type 0 where
  handled : Handling
  row_raised : Fault → Handling
  append_raised : Fault → Handling
  record_raised : Fault → Handling

pub data Ending : Type 0 where
  stream_ended : Ending
  raised : Fault → Ending

-- A round: the items that the stream has, how it ends if every item gets through, and the pause.
pub record Attempt {ℓ κ} (I : Type ℓ) (F : Type κ) : Type (ℓ ⊔ κ) where
  pub items : List (I × Handling)
  pub ending : Ending
  pub random : F
  -- Whether the worker is cancelled in the pause after the stream.
  pub cancelled_in_pause : Bool

pub data Life : Type 0 where
  running : Life
  raised_cancelled : Life
  returned : Life

pub record WorkerRun {ℓ κ} (I : Type ℓ) (F : Type κ) : Type (ℓ ⊔ κ) where
  pub life : Life
  pub restarts : ℕ
  -- The items whose `writer.append` returned, and the pauses.
  pub appended : List I
  pub pauses : List F

module _ {κ} {F : Type κ} ⦃fl : Float F⦄ where
  abbrev pub min_backoff : F
  min_backoff = fl.of_decimal 1 0

  abbrev pub max_backoff : F
  max_backoff = fl.of_decimal 60 0

  -- `min(backoff, _MAX_BACKOFF) * (0.5 + random.random())`
  unfoldable pub sleep_of : F → F → F
  sleep_of backoff random =
      fl.mul (minimum backoff (max_backoff ∷ [])) (fl.add (fl.of_decimal 5 1) random)

-- `async for item in self._make_stream()`: what is appended, and how the loop ends.
unfoldable pub consume {ℓ} : {I : Type ℓ} → List (I × Handling) → Ending → List I × Ending
consume [] ending = ([], ending)
consume ((item, handled) ∷ items) ending =
    let (appended, end) = consume items ending in (item ∷ appended, end)
consume ((item, row_raised fault) ∷ items) ending = ([], raised fault)
consume ((item, append_raised fault) ∷ items) ending = ([], raised fault)
consume ((item, record_raised fault) ∷ items) ending = (item ∷ [], raised fault)

module _ {ℓ κ} {I : Type ℓ} {F : Type κ} ⦃fl : Float F⦄ where
  abbrev pub stopped : Life → ℕ → List I → WorkerRun I F
  stopped life restarts items = record {
    life = life;
    restarts = restarts;
    appended = items;
    pauses = [];
  }

  -- The pause after a stream, and the rounds after it.
  abbrev pub after_pause : Bool → List I → F → ℕ → WorkerRun I F → WorkerRun I F
  after_pause true items sleep_s restarts rest = record {
    life = raised_cancelled;
    restarts = restarts;
    appended = items;
    pauses = sleep_s ∷ [];
  }
  after_pause false items sleep_s restarts rest = record rest {
    appended = items ++ rest.appended;
    pauses = sleep_s ∷ rest.pauses;
  }

  -- The handlers of `try`, for a loop that has appended `items`.
  abbrev pub one_round : Ending → List I → Bool → F → ℕ → WorkerRun I F → WorkerRun I F
  one_round (raised cancelled) items in_pause sleep_s restarts rest =
      stopped raised_cancelled restarts items
  one_round (raised unsupported) items in_pause sleep_s restarts rest =
      stopped returned restarts items
  one_round (raised crashed) items in_pause sleep_s restarts rest =
      after_pause in_pause items sleep_s (restarts + 1) rest
  one_round stream_ended items in_pause sleep_s restarts rest =
      after_pause in_pause items sleep_s (restarts + 1) rest

  -- `while True`, over the rounds that happen.
  unfoldable pub run_loop : F → ℕ → List (Attempt I F) → WorkerRun I F
  unfolding sleep_of consume
  run_loop backoff restarts [] = stopped running restarts []
  run_loop backoff restarts (a ∷ attempts) =
      let rest =
        run_loop (minimum (fl.mul backoff (fl.of_nat 2)) (max_backoff ∷ [])) (restarts + 1)
          attempts in
      let (items, ending) = consume a.items a.ending in
      one_round ending items a.cancelled_in_pause (sleep_of backoff a.random) restarts rest

  unfoldable pub run_worker : List (Attempt I F) → WorkerRun I F
  unfolding run_loop
  run_worker attempts = run_loop min_backoff 0 attempts
