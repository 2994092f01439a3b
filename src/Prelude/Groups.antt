-- ===== src/Prelude/Groups.antt =====
-- `for x in xs: d.setdefault(f(x), []).append(g(x))`, and `collections.Counter`.
use crypto_data_aggregator.Prelude.Tests.{Bool-cases}
use crypto_data_aggregator.Prelude.Lists.{length, All, All-append, select, total_of}
use crypto_data_aggregator.Prelude.Order.{Order, eq, eq→≡}
use crypto_data_aggregator.Prelude.Dict.{
  get, put, get-put, get_list, append_at, or_empty, get_list-append_at,
}
use Prim.Native.Nat.{ℕ, suc, ◌+◌}
use mathlib.Core.Path.{◌≡◌, refl, sym, ap, ◌∙◌, subst}
use mathlib.Core.Logic.{inl, inr}
use mathlib.Core.Bool.{false}
use mathlib.Core.Option.{Option, none, some}
use mathlib.Core.List.{List, [], ◌∷◌, ◌++◌, map, append-nil, append_assoc}
use native.Mathlib.Omega.{arith}

-- The sum of a measure over all values of a dict of lists.
abbrev pub weighed {ℓ κ} : {K : Type ℓ} {V : Type κ} → (V → ℕ) → List (K × List V) → ℕ
weighed w [] = 0
weighed w ((k, vs) ∷ d) = total_of (map w vs) + weighed w d

total_of-snoc {ℓ} :
    {V : Type ℓ} (w : V → ℕ) (vs : List V) (v : V)
    → total_of (map w (vs ++ (v ∷ []))) ≡ total_of (map w vs) + w v
total_of-snoc w [] v = omega arith
total_of-snoc w (u ∷ vs) v = omega (arith, total_of-snoc w vs v)

module _ {ℓ κ μ} {A : Type ℓ} {K : Type κ} {V : Type μ} ⦃o : Order K⦄ (f : A → K) (g : A → V) where
  unfoldable pub group_loop : List A → List (K × List V) → List (K × List V)
  group_loop [] d = d
  group_loop (x ∷ xs) d = group_loop xs (append_at (f x) (g x) d)

  -- The group of a key holds what has that key, in order.
  pub get_list-group_loop :
      (k : K) (xs : List A) (d : List (K × List V))
      → get_list k (group_loop xs d) ≡ get_list k d ++ map g (select (λ x. eq (f x) k) xs)
  unfolding group_loop
  get_list-group_loop k [] d = sym (append-nil (get_list k d))
  get_list-group_loop k (x ∷ xs) d =
      let step = get_list-group_loop k xs (append_at (f x) (g x) d) in
      let grown = get_list-append_at (f x) k (g x) d in
      elim (Bool-cases (eq (f x) k)) [
        | inl e ↦ rw e (
            step
            ∙ ap (λ l. l ++ map g (select (λ x. eq (f x) k) xs)) (grown ∙ rw e refl)
            ∙ append_assoc (get_list k d) (g x ∷ []) _)
        | inr e ↦
            rw e (step ∙ ap (λ l. l ++ map g (select (λ x. eq (f x) k) xs)) (grown ∙ rw e refl))
      ]

module _ {κ μ} {K : Type κ} {V : Type μ} ⦃o : Order K⦄ where
  -- Another key first: it stays, and the rest is searched.
  get-other : (k j : K) (w : V) (d : List (K × V)) → eq j k ≡ false → get k ((j, w) ∷ d) ≡ get k d
  unfolding get
  get-other k j w d e = rw e

  put-other :
      (k j : K) (v w : V) (d : List (K × V))
      → eq j k ≡ false
      → put k v ((j, w) ∷ d) ≡ (j, w) ∷ put k v d
  unfolding put
  put-other k j v w d e = rw e

module _ {κ μ} {K : Type κ} {V : Type μ} ⦃o : Order K⦄ where
  append_at-other :
      (k j : K) (v : V) (ws : List V) (d : List (K × List V))
      → eq j k ≡ false
      → append_at k v ((j, ws) ∷ d) ≡ (j, ws) ∷ append_at k v d
  unfolding append_at get_list
  append_at-other k j v ws d e =
      ap (λ g. put k (or_empty g ++ (v ∷ [])) ((j, ws) ∷ d)) (get-other k j ws d e)
      ∙ put-other k j _ ws d e

  weighed-append_at :
      (w : V → ℕ) (k : K) (v : V) (d : List (K × List V))
      → weighed w (append_at k v d) ≡ w v + weighed w d
  unfolding append_at get_list put get
  weighed-append_at w k v [] = omega arith
  weighed-append_at w k v ((j, ws) ∷ d) = elim (Bool-cases (eq j k)) [
    | inl e ↦ rw e (omega (arith, total_of-snoc w ws v))
    | inr e ↦
        ap (weighed w) (append_at-other k j v ws d e) ∙ omega (arith, weighed-append_at w k v d)
  ]

  -- What holds of every value with the key under which it stands.
  abbrev pub Grouped {ν} : (K → V → Type ν) → List (K × List V) → Type ν
  Grouped P [] = Unit
  Grouped P ((k, vs) ∷ d) = All (P k) vs × Grouped P d

  append_at-Grouped {ν} :
      (P : K → V → Type ν) (k : K) (v : V) (d : List (K × List V))
      → P k v
      → Grouped P d
      → Grouped P (append_at k v d)
  unfolding append_at get_list put get
  append_at-Grouped P k v [] p h = ((p, tt), tt)
  append_at-Grouped P k v ((j, ws) ∷ d) p h = elim (Bool-cases (eq j k)) [
    | inl e ↦
        rw e (All-append (P j) ws (v ∷ []) h.0 (subst (λ i. P i v) (sym (eq→≡ j k e)) p, tt), h.1)
    | inr e ↦
        subst (Grouped P) (sym (append_at-other k j v ws d e))
          (h.0, append_at-Grouped P k v d p h.1)
  ]

module _ {ℓ κ μ} {A : Type ℓ} {K : Type κ} {V : Type μ} ⦃o : Order K⦄ (f : A → K) (g : A → V) where
  -- Every element is in one group.
  pub weighed-group_loop :
      (w : V → ℕ) (xs : List A) (d : List (K × List V))
      → weighed w (group_loop f g xs d) ≡ total_of (map (λ x. w (g x)) xs) + weighed w d
  unfolding group_loop
  weighed-group_loop w [] d = omega arith
  weighed-group_loop w (x ∷ xs) d =
      omega (
        arith,
        weighed-group_loop w xs (append_at (f x) (g x) d),
        weighed-append_at w (f x) (g x) d,
      )

  pub group_loop-Grouped {ν} :
      (P : K → V → Type ν) (xs : List A) (d : List (K × List V))
      → All (λ x. P (f x) (g x)) xs
      → Grouped P d
      → Grouped P (group_loop f g xs d)
  unfolding group_loop
  group_loop-Grouped P [] d h k = k
  group_loop-Grouped P (x ∷ xs) d h k =
      group_loop-Grouped P xs (append_at (f x) (g x) d) h.1
        (append_at-Grouped P (f x) (g x) d h.0 k)

abbrev pub times_seen : Option ℕ → ℕ
times_seen none = 0
times_seen (some n) = n

module _ {κ} {K : Type κ} ⦃o : Order K⦄ where
  -- `Counter(xs)`, from the counts so far.
  unfoldable pub tally : List K → List (K × ℕ) → List (K × ℕ)
  tally [] d = d
  tally (x ∷ xs) d = tally xs (put x (times_seen (get x d) + 1) d)

  abbrev pub counted : List (K × ℕ) → ℕ
  counted [] = 0
  counted ((k, n) ∷ d) = n + counted d

  counted-put :
      (x : K) (d : List (K × ℕ)) → counted (put x (times_seen (get x d) + 1) d) ≡ suc (counted d)
  unfolding put get
  counted-put x [] = refl
  counted-put x ((j, n) ∷ d) = elim (Bool-cases (eq j x)) [
    | inl e ↦ rw e (omega arith)
    | inr e ↦
        ap (λ g. counted (put x (times_seen g + 1) ((j, n) ∷ d))) (get-other x j n d e)
        ∙ ap counted (put-other x j _ n d e)
        ∙ omega (arith, counted-put x d)
  ]

  -- The counts add up to the number of elements.
  pub counted-tally :
      (xs : List K) (d : List (K × ℕ)) → counted (tally xs d) ≡ length xs + counted d
  unfolding tally
  counted-tally [] d = omega arith
  counted-tally (x ∷ xs) d =
      omega (arith, counted-tally xs (put x (times_seen (get x d) + 1) d), counted-put x d)

  -- The count of a key is how often it stands in the list.
  pub get-tally :
      (k : K) (xs : List K) (d : List (K × ℕ))
      → times_seen (get k (tally xs d)) ≡ length (select (λ x. eq x k) xs) + times_seen (get k d)
  unfolding tally
  get-tally k [] d = omega arith
  get-tally k (x ∷ xs) d =
      let later = get-tally k xs (put x (times_seen (get x d) + 1) d) in
      let now = ap times_seen (get-put x k (times_seen (get x d) + 1) d) in
      elim (Bool-cases (eq x k)) [
        | inl e ↦
            let same = ap (λ y. times_seen (get y d)) (eq→≡ x k e) in
            rw e (omega (arith, later, rw e at now, same))
        | inr e ↦ rw e (omega (arith, later, rw e at now))
      ]
