-- ===== src/Health/Verdicts.antt =====
-- What the report says of a stream and what `is_down` says of it.
use crypto_data_aggregator.Prelude.{
  ℕ, ◌≡◌, sym, ap, ◌∙◌, inl, inr, Bool, not, some, List, [], ◌∷◌, arith, Bool-cases,
}
use crypto_data_aggregator.Prelude.Order.{text_order, pair_order, eq}
use crypto_data_aggregator.Prelude.Dict.{get, put, get-put}
use crypto_data_aggregator.Float.{Float}
use crypto_data_aggregator.Health.{
  StreamKey, Windows, Status, Limits, status_of, evaluate_loop, evaluate, is_down, down_or_up,
}

module _ {ℓ} {F : Type ℓ} ⦃fl : Float F⦄ (limits : Limits F) (clock : StreamKey → ℕ × ℕ) where
  Agrees : List (StreamKey × Status F) × List (StreamKey × Bool) → Type ℓ
  Agrees (report, down) =
      (key : StreamKey) (status : Status F)
      → get key report ≡ some status
      → get key down ≡ some (not status.up)

  evaluate_loop-Agrees :
      (windows : Windows) (st : List (StreamKey × Status F) × List (StreamKey × Bool))
      → Agrees st
      → Agrees (evaluate_loop limits clock windows st)
  unfolding evaluate_loop Agrees
  evaluate_loop-Agrees [] (report, down) h = h
  evaluate_loop-Agrees ((key, timestamps) ∷ windows) (report, down) h =
      let status = status_of limits (clock key).0 (clock key).1 timestamps in
      evaluate_loop-Agrees windows (put key status report, put key (not status.up) down)
        (λ k s e.
          let at_report = sym (get-put key k status report) ∙ e in
          let at_down = get-put key k (not status.up) down in
          elim (Bool-cases (eq key k)) [
            | inl t ↦
                let same : status ≡ s = cc (rw t at at_report) in
                rw t at at_down ∙ ap (λ (x : Status F). some (not x.up)) same
            | inr t ↦ rw t at at_down ∙ h k s (rw t at at_report)
          ])

  -- After an evaluation, every stream of its report is taken for down exactly if the report does not
  -- call it up, whatever was taken for down before.
  pub is_down-evaluate :
      (windows : Windows) (down : List (StreamKey × Bool)) (key : StreamKey) (status : Status F)
      → get key (evaluate limits clock windows down).0 ≡ some status
      → is_down key (evaluate limits clock windows down).1 ≡ not status.up
  unfolding evaluate is_down Agrees
  is_down-evaluate windows down key status e = ap down_or_up (
      evaluate_loop-Agrees windows ([], down) (unfold get in λ k s p. absurd (ground (arith, p)))
        key status e)
