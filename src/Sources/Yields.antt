-- ===== src/Sources/Yields.antt =====
-- What the loops of the streams yield, from what the parsers of their rows ensure.
use crypto_data_aggregator.Prelude.{
  length, ◌<◌, ◌≤◌, arith, ℕ, ◌+◌, Option, none, some, List, [], ◌∷◌, All, All-append,
}
use crypto_data_aggregator.Python.{Result, ok, raise, Json}
use crypto_data_aggregator.Python.Results.{Ensures, holds, raises, IsNoneOr}
use crypto_data_aggregator.Sources.{
  Emission, Session, emit_row, for_rows, on_rows, and_then, run_frames, each_message,
}

-- Every item that is yielded satisfies `Q`, and the state that is left, if any, `I`.
abbrev pub Yields {ℓ κ μ ν} :
    {B : Type ℓ} {S : Type κ} → (B → Type μ) → (S → Type ν) → Emission B S → Type (μ ⊔ ν ⊔ κ)
Yields Q I (bs, r) = All Q bs × Ensures I r

abbrev pub Any : Unit {0} → Type 0
Any s = Unit

emit_row-Yields {ℓ κ} :
    {B : Type ℓ} (Q : B → Type κ) (r : Result (Option B)) (rest : Emission B (Unit {0}))
    → Ensures (IsNoneOr Q) r
    → Yields Q Any rest
    → Yields Q Any (emit_row r rest)
emit_row-Yields Q (raise e) rest h k = (tt, raises)
emit_row-Yields Q (ok none) rest h k = k
emit_row-Yields Q (ok (some b)) rest (holds h) k = ((h, k.0), k.1)

module _ {ℓ κ μ} {A : Type ℓ} {B : Type κ} (Q : B → Type μ) where
  pub for_rows-Yields :
      (parse : ℕ → A → Result (Option B))
      → ((i : ℕ) (a : A) → Ensures (IsNoneOr Q) (parse i a))
      → (i : ℕ) (rows : List A) → Yields Q Any (for_rows parse i rows)
  unfolding for_rows
  for_rows-Yields parse h i [] = (tt, holds tt)
  for_rows-Yields parse h i (a ∷ rows) =
      emit_row-Yields Q (parse i a) _ (h i a) (for_rows-Yields parse h (i + 1) rows)

  pub on_rows-Yields :
      (r : Result (List A)) (parse : ℕ → A → Result (Option B))
      → ((i : ℕ) (a : A) → Ensures (IsNoneOr Q) (parse i a))
      → Yields Q Any (on_rows r parse)
  on_rows-Yields (raise e) parse h = (tt, raises)
  on_rows-Yields (ok rows) parse h = for_rows-Yields parse h 0 rows

module _ {ℓ κ μ ν} {B : Type ℓ} {S : Type κ} (Q : B → Type μ) (I : S → Type ν) where
  pub and_then-Yields :
      (e : Emission B S) (k : S → Emission B S)
      → Yields Q I e
      → ((s : S) → I s → Yields Q I (k s))
      → Yields Q I (and_then e k)
  and_then-Yields (bs, raise x) k h f = (h.0, raises)
  and_then-Yields (bs, ok s) k (h, holds i) f = (All-append Q bs _ h (f s i).0, (f s i).1)

  -- Where the body is called for one of the frames only, each by its number.
  pub run_frames-Yields_within {ρ} :
      {F : Type ρ} (end : ℕ) (body : ℕ → S → Json F → Emission B S)
      → ((n : ℕ) (s : S) (msg : Json F) → n < end → I s → Yields Q I (body n s msg))
      → (n : ℕ) (s : S) (frames : List (Option (Json F))) → n + length frames ≤ end
      → I s
      → Yields Q I (run_frames body n s frames)
  unfolding run_frames
  run_frames-Yields_within end body h n s [] le i = (tt, holds i)
  run_frames-Yields_within end body h n s (none ∷ frames) le i =
      run_frames-Yields_within end body h (n + 1) s frames (omega (arith, le)) i
  run_frames-Yields_within end body h n s (some msg ∷ frames) le i =
      and_then-Yields (body n s msg) _ (h n s msg (omega (arith, le)) i)
        λ t j. run_frames-Yields_within end body h (n + 1) t frames (omega (arith, le)) j

  pub run_frames-Yields {ρ} :
      {F : Type ρ} (body : ℕ → S → Json F → Emission B S)
      → ((n : ℕ) (s : S) (msg : Json F) → I s → Yields Q I (body n s msg))
      → (n : ℕ) (s : S) (frames : List (Option (Json F))) → I s
      → Yields Q I (run_frames body n s frames)
  run_frames-Yields body h n s frames i =
      run_frames-Yields_within (n + length frames) body (λ m t msg le j. h m t msg j) n s frames
        (omega arith) i

module _ {ℓ κ μ ν} {F : Type ℓ} {A : Type κ} {B : Type μ} (Q : B → Type ν) where
  pub each_message-Yields :
      (sessions : ℕ → Session) (rows : Json F → Result (List A))
      (parse : Session → ℕ → A → Result (Option B)) (frames : List (Option (Json F)))
      → ((n i : ℕ) (a : A) → n < length frames → Ensures (IsNoneOr Q) (parse (sessions n) i a))
      → Yields Q Any (each_message sessions rows parse frames)
  unfolding each_message
  each_message-Yields sessions rows parse frames h =
      run_frames-Yields_within Q Any (length frames) _
        (λ n s msg le i. on_rows-Yields Q (rows msg) (parse (sessions n)) (λ j a. h n j a le)) 0 tt
        frames (omega arith) tt
