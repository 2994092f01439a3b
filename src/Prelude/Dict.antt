-- ===== src/Prelude/Dict.antt =====
-- `dict` as an association list in insertion order, over keys with a total order, whose `==` decides.
use crypto_data_aggregator.Prelude.Tests.{if◌then◌else◌, Bool-cases}
use crypto_data_aggregator.Prelude.Lists.{All, In, here, there}
use crypto_data_aggregator.Prelude.Order.{Order, eq, eq→≡, eq_refl}
use mathlib.Core.Path.{◌≡◌, refl, sym, ap, ◌∙◌, subst}
use mathlib.Core.Logic.{◌⊎◌, inl, inr}
use mathlib.Core.Bool.{true}
use mathlib.Core.Option.{Option, none, some}
use mathlib.Core.List.{List, [], ◌∷◌, ◌++◌}
use native.Mathlib.Omega.{arith}

eq_congr {ℓ} : {K : Type ℓ} ⦃o : Order K⦄ (i j k : K) → eq i j ≡ true → eq i k ≡ eq j k
eq_congr i j k h = ap (λ x. eq x k) (eq→≡ i j h)

module _ {ℓ κ} {K : Type ℓ} {V : Type κ} ⦃o : Order K⦄ where
  -- `d.get(k)`
  unfoldable pub get : K → List (K × V) → Option V
  get k [] = none
  get k ((j, v) ∷ d) = if eq j k then some v else get k d

  -- `d[k] = v`: an old key keeps its place, a new one goes last.
  unfoldable pub put : K → V → List (K × V) → List (K × V)
  put k v [] = (k, v) ∷ []
  put k v ((j, w) ∷ d) = if eq j k then (j, v) ∷ d else (j, w) ∷ put k v d

  -- `d.pop(k, None)`, without the result.
  unfoldable pub remove : K → List (K × V) → List (K × V)
  remove k [] = []
  remove k ((j, w) ∷ d) = if eq j k then d else (j, w) ∷ remove k d

  -- `list(d)`
  abbrev pub keys : List (K × V) → List K
  keys [] = []
  keys ((j, w) ∷ d) = j ∷ keys d

  pub get-put :
      (k j : K) (v : V) (d : List (K × V))
      → get j (put k v d) ≡ (if eq k j then some v else get j d)
  unfolding get put
  get-put k j v [] = refl
  get-put k j v ((i, w) ∷ d) = elim (Bool-cases (eq i k)) [
    | inl e ↦ rw e (ground (arith, eq_congr i k j e))
    | inr e ↦
        rw (e, get-put k j v d)
          (ground (arith, eq_congr i j k, eq_congr k j i, eq_refl i, eq→≡ i j, eq→≡ k j))
  ]

  pub In-keys-put :
      {a : K} (k : K) (v : V) (d : List (K × V)) → (a ≡ k) ⊎ In a (keys d) → In a (keys (put k v d))
  unfolding put
  In-keys-put k v [] (inl e) = here e
  In-keys-put k v [] (inr m) = elim m [ ]
  In-keys-put k v ((i, w) ∷ d) (inl e) = elim (Bool-cases (eq i k)) [
    | inl t ↦ rw t (here (e ∙ sym (eq→≡ i k t)))
    | inr t ↦ rw t (there (In-keys-put k v d (inl e)))
  ]
  In-keys-put k v ((i, w) ∷ d) (inr (here e)) = elim (Bool-cases (eq i k)) [
    | inl t ↦ rw t (here e)
    | inr t ↦ rw t (here e)
  ]
  In-keys-put k v ((i, w) ∷ d) (inr (there m)) = elim (Bool-cases (eq i k)) [
    | inl t ↦ rw t (there m)
    | inr t ↦ rw t (there (In-keys-put k v d (inr m)))
  ]

  pub All-keys-put {μ} :
      (P : K → Type μ) (k : K) (v : V) (d : List (K × V))
      → P k
      → All P (keys d)
      → All P (keys (put k v d))
  unfolding put
  All-keys-put P k v [] p h = (p, tt)
  All-keys-put P k v ((i, w) ∷ d) p h = elim (Bool-cases (eq i k)) [
    | inl t ↦ rw t h
    | inr t ↦ rw t (h.0, All-keys-put P k v d p h.1)
  ]

abbrev pub or_empty {ℓ} : {V : Type ℓ} → Option (List V) → List V
or_empty none = []
or_empty (some vs) = vs

module _ {ℓ κ} {K : Type ℓ} {V : Type κ} ⦃o : Order K⦄ where
  -- `d.get(k, [])`
  unfoldable pub get_list : K → List (K × List V) → List V
  unfolding get
  get_list k d = or_empty (get k d)

  -- `d.setdefault(k, []).append(v)`
  unfoldable pub append_at : K → V → List (K × List V) → List (K × List V)
  append_at k v d = put k (get_list k d ++ (v ∷ [])) d

  pub get_list-append_at :
      (k j : K) (v : V) (d : List (K × List V))
      → get_list j (append_at k v d) ≡ (if eq k j then get_list j d ++ (v ∷ []) else get_list j d)
  unfolding get_list append_at
  get_list-append_at k j v d =
      let at_j = ap or_empty (get-put k j (get_list k d ++ (v ∷ [])) d) in
      elim (Bool-cases (eq k j)) [
        | inl e ↦ rw e at at_j ∙ rw (e, eq→≡ k j e)
        | inr e ↦ rw e at at_j ∙ rw e
      ]

module _ {ℓ κ} {K : Type ℓ} {V : Type κ} ⦃o : Order K⦄ where
  pub All-put {μ} :
      (P : K × V → Type μ) (k : K) (v : V) (d : List (K × V))
      → P (k, v)
      → All P d
      → All P (put k v d)
  unfolding put
  All-put P k v [] p h = (p, tt)
  All-put P k v ((i, w) ∷ d) p h = elim (Bool-cases (eq i k)) [
    | inl t ↦ rw t (subst (λ x. P (x, v)) (sym (eq→≡ i k t)) p, h.1)
    | inr t ↦ rw t (h.0, All-put P k v d p h.1)
  ]

  pub All-remove {μ} :
      (P : K × V → Type μ) (k : K) (d : List (K × V)) → All P d → All P (remove k d)
  unfolding remove
  All-remove P k [] h = tt
  All-remove P k ((i, w) ∷ d) h = elim (Bool-cases (eq i k)) [
    | inl t ↦ rw t h.1
    | inr t ↦ rw t (h.0, All-remove P k d h.1)
  ]

  pub All-get {μ} :
      (P : K × V → Type μ) (k : K) (v : V) (d : List (K × V))
      → get k d ≡ some v
      → All P d
      → P (k, v)
  unfolding get
  All-get P k v [] e h = absurd (ground (arith, e))
  All-get P k v ((i, w) ∷ d) e h = elim (Bool-cases (eq i k)) [
    | inl t ↦
        let same : w ≡ v = cc (rw t at e) in
        subst (λ x. P (k, x)) same (subst (λ x. P (x, w)) (eq→≡ i k t) h.0)
    | inr t ↦ All-get P k v d (rw t at e) h.1
  ]

  pub remove-put : (k : K) (v : V) (d : List (K × V)) → remove k (put k v d) ≡ remove k d
  unfolding remove put
  remove-put k v [] = rw (eq_refl k) refl
  remove-put k v ((i, w) ∷ d) = elim (Bool-cases (eq i k)) [
    | inl t ↦ rw (t, t) refl
    | inr t ↦ rw (t, t) (ap (◌∷◌ (i, w)) (remove-put k v d))
  ]
