-- ===== src/Consolidated/Bars/Buckets.antt =====
-- The first loop of `build_agg_bars` against its meaning: a second's bucket is the selection of the
-- trades of that second that no guard skips, in their order.
use crypto_data_aggregator.Prelude.{
  ℕ, ◌≡◌, refl, sym, ap, ◌∙◌, Bool, true, false, not, ◌&&◌, inl, inr, List, [], ◌∷◌, ◌++◌, select,
  All, In, here, there, Bool-cases, if◌then◌else◌,
}
use mathlib.Core.List.{append-nil, append_assoc}
use crypto_data_aggregator.Prelude.Order.{nat_order, eq}
use crypto_data_aggregator.Prelude.Dict.{
  get_list, append_at, keys, get_list-append_at, In-keys-put, All-keys-put,
}
use crypto_data_aggregator.Float.{Float}
use crypto_data_aggregator.Trade.{Trade, second_of}
use crypto_data_aggregator.Consolidated.Bars.{Options, is_skipped, bucket_loop, Buckets}

module _ {ℓ} {F : Type ℓ} ⦃fl : Float F⦄ (opts : Options F) where
  abbrev pub is_eligible : Trade F → Bool
  is_eligible t = not (is_skipped opts t)

  abbrev pub is_in_second : ℕ → Trade F → Bool
  is_in_second sec t = not (is_skipped opts t) && eq (second_of t.ts_ns) sec

  -- One turn of the loop.
  pub bucket_loop_skip :
      (t : Trade F) (ts : List (Trade F)) (st : Buckets F)
      → is_skipped opts t ≡ true
      → bucket_loop opts (t ∷ ts) st ≡ bucket_loop opts ts st
  unfolding bucket_loop
  bucket_loop_skip t ts (d, seen) e = rw e

  pub bucket_loop_take :
      (t : Trade F) (ts : List (Trade F)) (st : Buckets F)
      → is_skipped opts t ≡ false
      → bucket_loop opts (t ∷ ts) st
        ≡ bucket_loop opts ts (append_at (second_of t.ts_ns) t st.0, st.1 ++ (t.venue ∷ []))
  unfolding bucket_loop
  bucket_loop_take t ts (d, seen) e = rw e

  bucket_loop-get_list :
      (sec : ℕ) (ts : List (Trade F)) (st : Buckets F)
      → get_list sec (bucket_loop opts ts st).0 ≡ get_list sec st.0 ++ select (is_in_second sec) ts
  bucket_loop-get_list sec [] (d, seen) = unfold bucket_loop in sym (append-nil (get_list sec d))
  bucket_loop-get_list sec (t ∷ ts) st = elim (Bool-cases (is_skipped opts t)) [
    | inl e ↦ rw (bucket_loop_skip t ts st e, e) (bucket_loop-get_list sec ts st)
    | inr e ↦
        let s = second_of t.ts_ns in
        let st' : Buckets F = (append_at s t st.0, st.1 ++ (t.venue ∷ [])) in
        let ih = bucket_loop-get_list sec ts st' in
        rw (bucket_loop_take t ts st e, e) (ih ∙ after s t st.0 (select (is_in_second sec) ts))
  ]
    where
      after :
          (s : ℕ) (t : Trade F) (d : List (ℕ × List (Trade F))) (rest : List (Trade F))
          → get_list sec (append_at s t d) ++ rest
            ≡ get_list sec d ++ (if eq s sec then t ∷ rest else rest)
      after s t d rest = elim (Bool-cases (eq s sec)) [
        | inl e ↦ rw (get_list-append_at s sec t d, e) (append_assoc (get_list sec d) (t ∷ []) rest)
        | inr e ↦ rw (get_list-append_at s sec t d, e)
      ]

  -- `by_sec[sec]` holds the trades of that second that are not skipped, in the order of the stream.
  pub by_sec-select :
      (sec : ℕ) (ts : List (Trade F))
      → get_list sec (bucket_loop opts ts ([], [])).0 ≡ select (is_in_second sec) ts
  unfolding get_list
  by_sec-select sec ts = bucket_loop-get_list sec ts ([], [])

  In-keys-bucket_loop :
      {sec : ℕ} (ts : List (Trade F)) (st : Buckets F)
      → In sec (keys st.0)
      → In sec (keys (bucket_loop opts ts st).0)
  In-keys-bucket_loop [] (d, seen) m = unfold bucket_loop in m
  In-keys-bucket_loop (t ∷ ts) st m = elim (Bool-cases (is_skipped opts t)) [
    | inl e ↦ rw (bucket_loop_skip t ts st e) (In-keys-bucket_loop ts st m)
    | inr e ↦ rw (bucket_loop_take t ts st e) (
        In-keys-bucket_loop ts _
          (unfold append_at in In-keys-put (second_of t.ts_ns) _ st.0 (inr m)))
  ]

  -- The second of every eligible trade is a key.
  pub In-second_keys :
      {t : Trade F} (ts : List (Trade F)) (st : Buckets F)
      → In t ts
      → is_skipped opts t ≡ false
      → In (second_of t.ts_ns) (keys (bucket_loop opts ts st).0)
  In-second_keys [] st m e = elim m [ ]
  In-second_keys {t} (u ∷ ts) st (here q) e =
      let f : is_skipped opts u ≡ false = ap (is_skipped opts) (sym q) ∙ e in
      let s : second_of t.ts_ns ≡ second_of u.ts_ns = ap (λ (x : Trade F). second_of x.ts_ns) q in
      rw (bucket_loop_take u ts st f) (
        In-keys-bucket_loop ts _
          (unfold append_at in In-keys-put (second_of u.ts_ns) _ st.0 (inl s)))
  In-second_keys (u ∷ ts) st (there m) e = elim (Bool-cases (is_skipped opts u)) [
    | inl f ↦ rw (bucket_loop_skip u ts st f) (In-second_keys ts st m e)
    | inr f ↦ rw (bucket_loop_take u ts st f) (In-second_keys ts _ m e)
  ]

  -- Every key is the second of some trade.
  pub All-keys-bucket_loop {κ} :
      (P : ℕ → Type κ) (ts : List (Trade F)) (st : Buckets F)
      → All (λ t. P (second_of t.ts_ns)) ts
      → All P (keys st.0)
      → All P (keys (bucket_loop opts ts st).0)
  All-keys-bucket_loop P [] (d, seen) h k = unfold bucket_loop in k
  All-keys-bucket_loop P (t ∷ ts) st h k = elim (Bool-cases (is_skipped opts t)) [
    | inl e ↦ rw (bucket_loop_skip t ts st e) (All-keys-bucket_loop P ts st h.1 k)
    | inr e ↦ rw (bucket_loop_take t ts st e) (
        All-keys-bucket_loop P ts _ h.1
          (unfold append_at in All-keys-put P (second_of t.ts_ns) _ st.0 h.0 k))
  ]

  -- What is skipped might as well not be there.
  pub bucket_loop-select :
      (ts : List (Trade F)) (st : Buckets F)
      → bucket_loop opts (select is_eligible ts) st ≡ bucket_loop opts ts st
  bucket_loop-select [] st = refl
  bucket_loop-select (t ∷ ts) st = elim (Bool-cases (is_skipped opts t)) [
    | inl e ↦ rw (e, bucket_loop_skip t ts st e) (bucket_loop-select ts st)
    | inr e ↦
        rw (e, bucket_loop_take t ts st e)
          (bucket_loop_take t (select is_eligible ts) st e ∙ bucket_loop-select ts _)
  ]
