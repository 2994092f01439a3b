-- ===== src/Sources/Book/Turns.antt =====
-- The loops that keep books, and what each of their turns ensures.
use Prim.Native.String.{String}
use crypto_data_aggregator.Prelude.{ℕ, ◌+◌, ◌≡◌, refl, Option, none, some, List, [], ◌∷◌, All}
use crypto_data_aggregator.Prelude.Order.{text_order}
use crypto_data_aggregator.Float.{Float}
use crypto_data_aggregator.Python.{Result, ok, raise}
use crypto_data_aggregator.Python.Results.{Ensures, holds, raises, IsNoneOr}
use crypto_data_aggregator.Sources.{Emission, add_emitted}
use crypto_data_aggregator.Sources.Yields.{Yields}
use crypto_data_aggregator.Sources.Book.{
  Tracked, tracked_or_new, emit_state, for_rows_with, on_rows_with,
}
use crypto_data_aggregator.Sources.Book.Invariant.{IsBook, empty_book-IsBook}

module _ {ℓ κ μ ν} {B : Type ℓ} {S : Type κ} (Q : B → Type μ) (I : S → Type ν) where
  -- What a turn yields and the state that it leaves.
  abbrev pub IsTurn : Option B × S → Type (μ ⊔ ν)
  IsTurn (o, t) = IsNoneOr Q o × I t

  add_emitted-Yields :
      (o : Option B) (rest : Emission B S)
      → IsNoneOr Q o
      → Yields Q I rest
      → Yields Q I (add_emitted o rest)
  add_emitted-Yields none rest h k = k
  add_emitted-Yields (some b) rest h k = ((h, k.0), k.1)

  emit_state-Yields :
      (r : Result (Option B × S)) (k : S → Emission B S)
      → Ensures IsTurn r
      → ((t : S) → I t → Yields Q I (k t))
      → Yields Q I (emit_state r k)
  emit_state-Yields (raise e) k h f = (tt, raises)
  emit_state-Yields (ok (o, t)) k (holds h) f = add_emitted-Yields o (k t) h.0 (f t h.1)

  for_rows_with-Yields {ρ} :
      {A : Type ρ} (f : ℕ → S → A → Result (Option B × S))
      → ((i : ℕ) (s : S) (a : A) → I s → Ensures IsTurn (f i s a))
      → (i : ℕ) (s : S) (rows : List A) → I s
      → Yields Q I (for_rows_with f i s rows)
  unfolding for_rows_with
  for_rows_with-Yields f h i s [] k = (tt, holds k)
  for_rows_with-Yields f h i s (a ∷ rows) k =
      emit_state-Yields (f i s a) _ (h i s a k) λ t j. for_rows_with-Yields f h (i + 1) t rows j

  pub on_rows_with-Yields {ρ} :
      {A : Type ρ} (r : Result (List A)) (f : ℕ → S → A → Result (Option B × S))
      → ((i : ℕ) (s : S) (a : A) → I s → Ensures IsTurn (f i s a))
      → (s : S) → I s
      → Yields Q I (on_rows_with r f s)
  on_rows_with-Yields (raise e) f h s k = (tt, raises)
  on_rows_with-Yields (ok rows) f h s k = for_rows_with-Yields f h 0 s rows k

module _ {ℓ} {F : Type ℓ} ⦃fl : Float F⦄ where
  -- Every book that is kept.
  abbrev pub AreBooks : List (String × Tracked F) → Type 0
  AreBooks books = All (λ e. IsBook e.1.book) books

  pub tracked_or_new-IsBook :
      (o : Option (Tracked F))
      → ((tracked : Tracked F) → o ≡ some tracked → IsBook tracked.book)
      → IsBook (tracked_or_new o).book
  tracked_or_new-IsBook none h = empty_book-IsBook
  tracked_or_new-IsBook (some tracked) h = h tracked refl
