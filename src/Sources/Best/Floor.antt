-- ===== src/Sources/Best/Floor.antt =====
-- The best prices that Gemini's stream of quotes keeps.
use Prim.Native.String.{String}
use crypto_data_aggregator.Prelude.{
  ℕ, ◌≡◌, refl, sym, subst, true, Option, none, some, List, [], ◌∷◌, All, inl, inr, Bool-cases,
  ◌&&◌, ◌||◌, arith,
}
use crypto_data_aggregator.Prelude.Order.{◌≼◌, ≼_refl, text_order, eq, lt, eq→≡}
use crypto_data_aggregator.Prelude.Dict.{get, put, get-put}
use crypto_data_aggregator.Float.{Float, float_order, nought}
use crypto_data_aggregator.Python.{Result, ok, raise, Json, Python, is_text}
use crypto_data_aggregator.Python.Results.{Ensures, holds, raises, Ensures-read, Ensures-ok}
use crypto_data_aggregator.Rows.{Quote}
use crypto_data_aggregator.Sources.{Session}
use crypto_data_aggregator.Sources.Yields.{Yields, run_frames-Yields}
use crypto_data_aggregator.Sources.Best.{
  Best, best_or_new, changed, apply_changes, quote_of, on_ticker, on_canonical, on_update,
  on_message, quotes_from,
}

module _ {ℓ} {F : Type ℓ} ⦃fl : Float F⦄ where
  -- A quote with a price on both sides.
  abbrev pub IsTwoSided : Quote F → Type 0
  IsTwoSided q = (lt nought q.bid_px ≡ true) × (lt nought q.ask_px ≡ true)

  -- The bid that is kept for a ticker is at least `floor`.
  abbrev pub HasFloor : String → F → List (String × Best F) → Type 0
  HasFloor ticker floor best = floor ≼ (best_or_new (get ticker best)).bid

  changed-bid : (side : Json F) (px q : F) (b : Best F) → b.bid ≼ (changed side px q b).bid
  unfolding changed
  changed-bid side px q b = elim (Bool-cases (eq q nought)) [
    | inl e ↦ rw e (≼_refl b.bid)
    | inr e ↦ elim (Bool-cases (is_text "buy" side && fl.order.le b.bid px)) [
      | inl t ↦ rw (e, t) (ground (arith, t))
      | inr t ↦
          elim (Bool-cases (is_text "sell" side && (eq b.ask nought || fl.order.le px b.ask))) [
            | inl u ↦ rw (e, t, u) (≼_refl b.bid)
            | inr u ↦ rw (e, t, u) (≼_refl b.bid)
          ]
    ]
  ]

module _ {ℓ} {F : Type ℓ} ⦃fl : Float F⦄ ⦃py : Python F⦄ where
  apply_changes-floor :
      (floor : F) (cs : List (Json F)) (b : Best F)
      → floor ≼ b.bid
      → Ensures (λ c. floor ≼ c.bid) (apply_changes cs b)
  unfolding apply_changes
  apply_changes-floor floor [] b h = holds h
  apply_changes-floor floor (c ∷ cs) b h = Ensures-read _ λ parts. Ensures-read _ λ entry.
      Ensures-read _ λ px. Ensures-read _ λ q.
        apply_changes-floor floor cs _
          (fl.order.le_trans floor b.bid _ h (changed-bid entry.0 px q b))

  quote_of-IsTwoSided :
      (session : Session) (canonical : String) (b : Best F)
      → All IsTwoSided (quote_of session canonical b)
  quote_of-IsTwoSided session canonical b = elim (Bool-cases (lt nought b.bid && lt nought b.ask)) [
    | inl e ↦ rw e ((ground (arith, e), ground (arith, e)), tt)
    | inr e ↦ rw e tt
  ]

  put-HasFloor :
      (ticker s : String) (floor : F) (b : Best F) (best : List (String × Best F))
      → HasFloor ticker floor best
      → (eq s ticker ≡ true → floor ≼ b.bid)
      → HasFloor ticker floor (put s b best)
  put-HasFloor ticker s floor b best h k = elim (Bool-cases (eq s ticker)) [
    | inl e ↦ rw (get-put s ticker b best, e) (k e)
    | inr e ↦ rw (get-put s ticker b best, e) h
  ]

  module _ (ticker : String) (floor : F) where
    ticker-HasFloor :
        (session : Session) (best : List (String × Best F)) (s canonical : String)
        (r : Result (Best F))
        → HasFloor ticker floor best
        → (eq s ticker ≡ true → Ensures (λ c. floor ≼ c.bid) r)
        → Yields IsTwoSided (HasFloor ticker floor) (on_ticker session best s canonical r)
    ticker-HasFloor session best s canonical (raise e) h k = (tt, raises)
    ticker-HasFloor session best s canonical (ok b) h k = (
      quote_of-IsTwoSided session canonical b,
      holds (put-HasFloor ticker s floor b best h λ e. Ensures-ok refl (k e)),
    )

    canonical-HasFloor :
        (session : Session) (best : List (String × Best F)) (msg : Json F) (s : String)
        (known : Option String)
        → HasFloor ticker floor best
        → Yields IsTwoSided (HasFloor ticker floor) (on_canonical session best msg s known)
    canonical-HasFloor session best msg s none h = (tt, holds h)
    canonical-HasFloor session best msg s (some canonical) h =
        ticker-HasFloor session best s canonical _ h λ e. Ensures-read _ λ changes.
          apply_changes-floor floor changes _
            (subst (λ t. HasFloor t floor best) (sym (eq→≡ s ticker e)) h)

    update-HasFloor :
        (session : Session) (best : List (String × Best F)) (msg : Json F)
        (r : Result (Option (String × Option String)))
        → HasFloor ticker floor best
        → Yields IsTwoSided (HasFloor ticker floor) (on_update session best msg r)
    update-HasFloor session best msg (raise e) h = (tt, raises)
    update-HasFloor session best msg (ok none) h = (tt, holds h)
    update-HasFloor session best msg (ok (some (s, known))) h =
        canonical-HasFloor session best msg s known h

    message-HasFloor :
        (session : Session) (best : List (String × Best F)) (msg : Json F)
        → HasFloor ticker floor best
        → Yields IsTwoSided (HasFloor ticker floor) (on_message session best msg)
    unfolding on_message
    message-HasFloor session best msg h = update-HasFloor session best msg _ h

    -- From any state on and whatever frames come, updates that take levels away included, the bid that
    -- Gemini's stream of quotes keeps for a ticker never falls: a floor under it at the start is one at
    -- the end. Every quote that is yielded has a positive price on both sides.
    pub quotes_from-HasFloor :
        (sessions : ℕ → Session) (n : ℕ) (best : List (String × Best F))
        (frames : List (Option (Json F)))
        → HasFloor ticker floor best
        → Yields IsTwoSided (HasFloor ticker floor) (quotes_from sessions n best frames)
    unfolding quotes_from
    quotes_from-HasFloor sessions n best frames h =
        run_frames-Yields IsTwoSided (HasFloor ticker floor) (λ k. on_message (sessions k))
          (λ k. message-HasFloor (sessions k)) n best frames h
