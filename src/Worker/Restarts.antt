-- ===== src/Worker/Restarts.antt =====
-- What stops a worker, and what it hands over until then.
use mathlib.Core.List.{append-nil}
use crypto_data_aggregator.Prelude.{
  ℕ, Bool, ◌+◌, ◌≡◌, refl, ap, inl, inr, ◌⊎◌, true, false, List, [], ◌∷◌, ◌++◌, arith, length,
  length-append, All,
}
use crypto_data_aggregator.Prelude.Order.{minimum}
use crypto_data_aggregator.Prelude.Within.{IsWithin, IsWithin-same, IsWithin-append}
use crypto_data_aggregator.Float.{Float, float_order}
use crypto_data_aggregator.Worker.{
  Attempt, crashed, cancelled, unsupported, Handling, handled, row_raised, append_raised,
  record_raised, Ending, stream_ended, raised, Life, after_pause, stopped, running,
  raised_cancelled, returned, WorkerRun, consume, sleep_of, one_round, min_backoff, max_backoff,
  run_loop, run_worker,
}

-- The items that a stream yields in a round: those up to the first that does not get through.
abbrev pub yielded {ℓ} : {I : Type ℓ} → List (I × Handling) → List I
yielded [] = []
yielded ((item, handled) ∷ items) = item ∷ yielded items
yielded ((item, _) ∷ items) = item ∷ []

-- Whether `to_row` or `writer.append` raises in a round: the number of its items that are lost.
abbrev pub refused {ℓ} : {I : Type ℓ} → List (I × Handling) → ℕ
refused [] = 0
refused ((item, handled) ∷ items) = refused items
refused ((item, row_raised fault) ∷ items) = 1
refused ((item, append_raised fault) ∷ items) = 1
refused ((item, record_raised fault) ∷ items) = 0

consume-yielded {ℓ} :
    {I : Type ℓ} (items : List (I × Handling)) (ending : Ending)
    → IsWithin (consume items ending).0 (yielded items)
      × (length (yielded items) ≡ length (consume items ending).0 + refused items)
unfolding consume
consume-yielded [] ending = (IsWithin.nil [], omega arith)
consume-yielded ((item, handled) ∷ items) ending =
    let (w, n) = consume-yielded items ending in (IsWithin.keep item w, omega (arith, n))
consume-yielded ((item, row_raised fault) ∷ items) ending = (IsWithin.nil _, omega arith)
consume-yielded ((item, append_raised fault) ∷ items) ending = (IsWithin.nil _, omega arith)
consume-yielded ((item, record_raised fault) ∷ items) ending = (IsWithin-same _, omega arith)

module _ {ℓ κ} {I : Type ℓ} {F : Type κ} where
  abbrev pub all_yielded : List (Attempt I F) → List I
  all_yielded [] = []
  all_yielded (a ∷ attempts) = yielded a.items ++ all_yielded attempts

  abbrev pub all_refused : List (Attempt I F) → ℕ
  all_refused [] = 0
  all_refused (a ∷ attempts) = refused a.items + all_refused attempts

  abbrev pub ending_of : Attempt I F → Ending
  ending_of a = (consume a.items a.ending).1

  -- The round ends by itself or with an ordinary exception, and the pause after it is not cancelled.
  abbrev pub IsRestartable : Attempt I F → Type 0
  IsRestartable a =
      ((ending_of a ≡ stream_ended) ⊎ (ending_of a ≡ raised crashed))
      × (a.cancelled_in_pause ≡ false)

  -- The round ends the worker.
  abbrev pub IsFinal : Life → Attempt I F → Type 0
  IsFinal life a =
      ((life ≡ returned) × (ending_of a ≡ raised unsupported))
      ⊎ ((life ≡ raised_cancelled)
          × ((ending_of a ≡ raised cancelled) ⊎ (a.cancelled_in_pause ≡ true)))

  -- How a worker has fared with the rounds, from `restarts` on: the rounds that it has served.
  pub record Supervised (attempts : List (Attempt I F)) (restarts : ℕ) (w : WorkerRun I F)
      : Type (ℓ ⊔ κ) where
    pub served : List (Attempt I F)
    pub unserved : List (Attempt I F)
    pub all_rounds : attempts ≡ served ++ unserved
    pub in_order : IsWithin w.appended (all_yielded served)
    pub lost : length (all_yielded served) ≡ length w.appended + all_refused served
    pub pause_each : w.restarts ≡ restarts + length w.pauses
    pub ends :
        ((w.life ≡ running)
          × (unserved ≡ [])
          × (length w.pauses ≡ length served)
          × All IsRestartable served)
        ⊎ ((before : List (Attempt I F)) × (last : Attempt I F) × (served ≡ before ++ (last ∷ []))
            × All IsRestartable before
            × IsFinal w.life last)

module _ {ℓ κ} {I : Type ℓ} {F : Type κ} ⦃fl : Float F⦄ where
  only_round :
      (a : Attempt I F) (attempts : List (Attempt I F)) (restarts : ℕ) (w : WorkerRun I F)
      → w.appended ≡ (consume a.items a.ending).0
      → w.restarts ≡ restarts + length w.pauses
      → IsFinal w.life a
      → Supervised (a ∷ attempts) restarts w
  only_round a attempts restarts w i n e =
      let (within, count) = consume-yielded a.items a.ending in
      record {
        served = a ∷ [];
        unserved = attempts;
        all_rounds = refl;
        in_order = rw (i, append-nil (yielded a.items)) within;
        lost = omega (arith, count, ap length i, ap length (append-nil (yielded a.items)));
        pause_each = n;
        ends = inr ([], a, refl, tt, e);
      }

  one_more :
      (a : Attempt I F) (attempts : List (Attempt I F)) (sleep_s : F) (restarts : ℕ)
      (rest : WorkerRun I F)
      → IsRestartable a
      → Supervised attempts (restarts + 1) rest
      → Supervised
          (a ∷ attempts)
          restarts
          (after_pause false (consume a.items a.ending).0 sleep_s (restarts + 1) rest)
  one_more a attempts sleep_s restarts rest r s =
      let (within, count) = consume-yielded a.items a.ending in
      record {
        served = a ∷ s.served;
        unserved = s.unserved;
        all_rounds = ap (λ l. a ∷ l) s.all_rounds;
        in_order = IsWithin-append within s.in_order;
        lost = omega (
          arith,
          count,
          s.lost,
          length-append (yielded a.items) (all_yielded s.served),
          length-append (consume a.items a.ending).0 rest.appended,
        );
        pause_each = omega (arith, s.pause_each);
        ends = elim s.ends [
          | inl (l, u, n, all) ↦ inl (l, u, omega (arith, n), (r, all))
          | inr (before, last, e, all, final) ↦
              inr (a ∷ before, last, ap (λ l. a ∷ l) e, (r, all), final)
        ];
      }

  -- A round whose pause the worker enters.
  paused :
      (a : Attempt I F) (attempts : List (Attempt I F)) (sleep_s : F) (restarts : ℕ)
      (rest : WorkerRun I F) (in_pause : Bool)
      → a.cancelled_in_pause ≡ in_pause
      → (ending_of a ≡ stream_ended) ⊎ (ending_of a ≡ raised crashed)
      → Supervised attempts (restarts + 1) rest
      → Supervised
          (a ∷ attempts)
          restarts
          (after_pause in_pause (consume a.items a.ending).0 sleep_s (restarts + 1) rest)
  paused a attempts sleep_s restarts rest true c e s =
      only_round a attempts restarts
        (after_pause true (consume a.items a.ending).0 sleep_s (restarts + 1) rest) refl
        (omega arith) (inr (refl, inr c))
  paused a attempts sleep_s restarts rest false c e s =
      one_more a attempts sleep_s restarts rest (e, c) s

  round-Supervised :
      (a : Attempt I F) (attempts : List (Attempt I F)) (sleep_s : F) (restarts : ℕ)
      (rest : WorkerRun I F) (ending : Ending)
      → ending_of a ≡ ending
      → Supervised attempts (restarts + 1) rest
      → Supervised
          (a ∷ attempts)
          restarts
          (one_round ending (consume a.items a.ending).0 a.cancelled_in_pause sleep_s restarts rest)
  round-Supervised a attempts sleep_s restarts rest stream_ended e s =
      paused a attempts sleep_s restarts rest a.cancelled_in_pause refl (inl e) s
  round-Supervised a attempts sleep_s restarts rest (raised crashed) e s =
      paused a attempts sleep_s restarts rest a.cancelled_in_pause refl (inr e) s
  round-Supervised a attempts sleep_s restarts rest (raised cancelled) e s =
      only_round a attempts restarts
        (stopped raised_cancelled restarts (consume a.items a.ending).0) refl (omega arith)
        (inr (refl, inl e))
  round-Supervised a attempts sleep_s restarts rest (raised unsupported) e s =
      only_round a attempts restarts (stopped returned restarts (consume a.items a.ending).0) refl
        (omega arith) (inl (refl, e))

  run_loop-Supervised :
      (backoff : F) (restarts : ℕ) (attempts : List (Attempt I F))
      → Supervised attempts restarts (run_loop backoff restarts attempts)
  unfolding run_loop
  run_loop-Supervised backoff restarts [] = record {
    served = [];
    unserved = [];
    all_rounds = refl;
    in_order = IsWithin.nil [];
    lost = omega arith;
    pause_each = omega arith;
    ends = inl (refl, refl, refl, tt);
  }
  run_loop-Supervised backoff restarts (a ∷ attempts) =
      let next = minimum (fl.mul backoff (fl.of_nat 2)) (max_backoff ∷ []) in
      round-Supervised a attempts (sleep_of backoff a.random) restarts
        (run_loop next (restarts + 1) attempts) (ending_of a) refl
        (run_loop-Supervised next (restarts + 1) attempts)

  -- Whatever the rounds are: the worker serves them in turn and pauses once for each restart. It is still
  -- running, with all rounds served, each of which ended by itself or with an ordinary exception; or the last
  -- round that it served is the first to be cancelled, in the stream or in the pause, or to raise
  -- `NotImplementedError`. What it appended stands inside what the streams of the served rounds yielded, in
  -- order, and lacks one item for each of these rounds in which `to_row` or `writer.append` raises, and none
  -- else.
  pub run_worker-Supervised :
      (attempts : List (Attempt I F)) → Supervised attempts 0 (run_worker attempts)
  unfolding run_worker
  run_worker-Supervised attempts = run_loop-Supervised min_backoff 0 attempts
