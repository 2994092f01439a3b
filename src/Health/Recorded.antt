-- ===== src/Health/Recorded.antt =====
-- What the windows hold after any messages.
use mathlib.Core.List.{append_assoc, append-nil}
use crypto_data_aggregator.Prelude.{
  ℕ, zero, suc, ◌+◌, ◌-◌, ◌≤◌, ◌≡◌, refl, sym, ap, ◌∙◌, inl, inr, List, [], ◌∷◌, ◌++◌, map, select,
  arith, length, length-append, ltb, Bool-cases,
}
use crypto_data_aggregator.Prelude.Order.{text_order, pair_order, eq, eq→≡}
use crypto_data_aggregator.Prelude.Dict.{get, get-put}
use crypto_data_aggregator.Health.{
  StreamKey, Windows, without_first, record_time, window_or_new, record_message, record_all,
}

module _ {ℓ} {A : Type ℓ} where
  -- `xs[n:]`
  abbrev pub drop : ℕ → List A → List A
  drop zero xs = xs
  drop (suc n) [] = []
  drop (suc n) (x ∷ xs) = drop n xs

  -- The last `n` of a list, or all of a shorter one.
  abbrev pub latest : ℕ → List A → List A
  latest n xs = drop (length xs - n) xs

  length-drop : (n : ℕ) (xs : List A) → length (drop n xs) ≡ length xs - n
  length-drop zero xs = omega arith
  length-drop (suc n) [] = omega arith
  length-drop (suc n) (x ∷ xs) = omega (arith, length-drop n xs)

  drop-append : (n : ℕ) (xs ys : List A) → n ≤ length xs → drop n (xs ++ ys) ≡ drop n xs ++ ys
  drop-append zero xs ys h = refl
  drop-append (suc n) [] ys h = absurd (omega arith)
  drop-append (suc n) (x ∷ xs) ys h = drop-append n xs ys (omega arith)

without_first-drop : (n : ℕ) (xs : List ℕ) → without_first (drop n xs) ≡ drop (suc n) xs
without_first-drop zero [] = refl
without_first-drop zero (x ∷ xs) = refl
without_first-drop (suc n) [] = refl
without_first-drop (suc n) (x ∷ xs) = without_first-drop n xs

-- One more time pushes the oldest out of the latest 20000.
record_time-latest :
    (ns : ℕ) (ts : List ℕ) → record_time ns (latest 20_000 ts) ≡ latest 20_000 (ts ++ (ns ∷ []))
unfolding record_time
record_time-latest ns ts =
    let n = length ts - 20_000 in
    let longer = ts ++ (ns ∷ []) in
    let more : length longer ≡ length ts + 1 = length-append ts (ns ∷ []) in
    let kept : drop n ts ++ (ns ∷ []) ≡ drop n longer =
      sym (drop-append n ts (ns ∷ []) (omega arith)) in
    let size : length (drop n longer) ≡ length longer - n = length-drop n longer in
    rw kept (elim (Bool-cases (ltb 20_000 (length (drop n longer)))) [
      | inl e ↦ rw e (
          without_first-drop n longer
          ∙ ap (λ k. drop k longer) {x = suc n} (ground (arith, e, size, more)))
      | inr e ↦ rw e (ap (λ k. drop k longer) {x = n} (ground (arith, e, size, more)))
    ])

-- The times of the messages of one stream.
abbrev pub times_of : StreamKey → List (StreamKey × ℕ) → List ℕ
times_of key messages = map (λ m. m.1) (select (λ m. eq m.0 key) messages)

abbrev window_of : StreamKey → Windows → List ℕ
window_of key windows = window_or_new (get key windows)

window-record_message :
    (key k : StreamKey) (ns : ℕ) (windows : Windows) (ts : List ℕ)
    → window_of key windows ≡ latest 20_000 ts
    → window_of key (record_message k ns windows)
      ≡ latest 20_000 (ts ++ times_of key ((k, ns) ∷ []))
unfolding record_message
window-record_message key k ns windows ts h =
    rw (get-put k key (record_time ns (window_of k windows)) windows)
      (elim (Bool-cases (eq k key)) [
        | inl e ↦ rw e (
            ap (λ x. record_time ns (window_of x windows)) (eq→≡ k key e)
            ∙ ap (record_time ns) h
            ∙ record_time-latest ns ts)
        | inr e ↦ rw e (h ∙ ap (latest 20_000) (sym (append-nil ts)))
      ])

record_all-after :
    (key : StreamKey) (messages : List (StreamKey × ℕ)) (windows : Windows) (ts : List ℕ)
    → window_of key windows ≡ latest 20_000 ts
    → window_of key (record_all messages windows) ≡ latest 20_000 (ts ++ times_of key messages)
unfolding record_all
record_all-after key [] windows ts h = h ∙ ap (latest 20_000) (sym (append-nil ts))
record_all-after key ((k, ns) ∷ messages) windows ts h =
    let one = times_of key ((k, ns) ∷ []) in
    let split : one ++ times_of key messages ≡ times_of key ((k, ns) ∷ messages) =
      elim (Bool-cases (eq k key)) [ inl e ↦ rw e refl | inr e ↦ rw e refl ] in
    record_all-after key messages (record_message k ns windows) (ts ++ one)
      (window-record_message key k ns windows ts h)
    ∙ ap (latest 20_000) (append_assoc ts one (times_of key messages) ∙ ap (λ l. ts ++ l) split)

-- Whatever messages the workers record, of whatever streams: the window of each stream holds the times of
-- the last 20000 messages of that stream, in the order in which they were recorded.
pub record_all-latest :
    (key : StreamKey) (messages : List (StreamKey × ℕ))
    → window_or_new (get key (record_all messages [])) ≡ latest 20_000 (times_of key messages)
record_all-latest key messages = record_all-after key messages [] [] (unfold get in refl)
