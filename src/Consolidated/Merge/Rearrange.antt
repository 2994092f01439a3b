-- ===== src/Consolidated/Merge/Rearrange.antt =====
-- What `merge_trades` puts out, against what it is given.
use mathlib.Core.Path.{subst}
use mathlib.Core.List.Perm
use Prim.Native.String.{String}
use crypto_data_aggregator.Prelude.{
  ℕ, zero, suc, ◌+◌, ◌≤◌, ◌≡◌, refl, ap, ◌∙◌, inl, inr, List, [], ◌∷◌, ◌++◌, Perm, arith, length,
  chain, length-append, Bool-cases,
}
use crypto_data_aggregator.Prelude.Perms.{swap_blocks}
use crypto_data_aggregator.Trade.{Trade}
use crypto_data_aggregator.Consolidated.Merge.{
  Entry, rank_le, pop_least, refill, start, merge_loop, total, values, merge_trades,
}

module _ {ℓ} {F : Type ℓ} where
  -- What an entry still has to give, and what a heap has.
  abbrev pub pending : Entry F → List (Trade F)
  pending e = e.item ∷ e.rest

  abbrev pub contents : List (Entry F) → List (Trade F)
  contents [] = []
  contents (e ∷ heap) = pending e ++ contents heap

  pub contents-refill :
      (i : ℕ) (rows : List (Trade F)) (heap : List (Entry F))
      → contents (refill i rows heap) ≡ rows ++ contents heap
  contents-refill i [] heap = refl
  contents-refill i (t ∷ ts) heap = refl

  pub contents-start :
      (i : ℕ) (lists : List (List (Trade F))) → contents (start i lists) ≡ chain lists
  unfolding start
  contents-start i [] = refl
  contents-start i (rows ∷ more) =
      contents-refill i rows (start (i + 1) more) ∙ ap (◌++◌ rows) (contents-start (i + 1) more)

  length-swap_blocks : (a b c : List (Trade F)) → length (a ++ (b ++ c)) ≡ length (b ++ (a ++ c))
  length-swap_blocks a b c = omega (
    arith,
    length-append a (b ++ c),
    length-append b c,
    length-append b (a ++ c),
    length-append a c,
  )

  pop_least-perm :
      (e : Entry F) (heap : List (Entry F))
      → let (least, others) = pop_least e heap in
        Perm (pending e ++ contents heap) (pending least ++ contents others)
        × (length (pending e ++ contents heap) ≡ length (pending least ++ contents others))
  unfolding pop_least
  pop_least-perm e [] = (Perm.rfl, refl)
  pop_least-perm e (h ∷ heap) =
      let (least, others) = pop_least h heap in
      let (moved, same) = pop_least-perm h heap in
      elim (Bool-cases (rank_le e least)) [
        | inl t ↦ rw t (Perm.rfl, refl)
        | inr t ↦ rw t (
          Perm.trans (Perm.append_left (pending e) moved)
              (swap_blocks (pending e) (pending least) (contents others)),
          omega (
            arith,
            same,
            length-append (pending e) (contents (h ∷ heap)),
            length-append (pending e) (pending least ++ contents others),
            length-swap_blocks (pending e) (pending least) (contents others),
          ),
        )
      ]

  pub pop_least-length :
      (e : Entry F) (heap : List (Entry F))
      → let (least, others) = pop_least e heap in
        length (pending e ++ contents heap) ≡ length (pending least ++ contents others)
  pop_least-length e heap = (pop_least-perm e heap).1

  -- One round for each trade is enough.
  merge_loop-perm :
      (fuel : ℕ) (heap : List (Entry F))
      → length (contents heap) ≤ fuel
      → Perm (merge_loop fuel heap) (contents heap)
  unfolding merge_loop
  merge_loop-perm zero [] h = Perm.rfl
  merge_loop-perm zero (e ∷ heap) h = absurd (omega arith)
  merge_loop-perm (suc fuel) [] h = Perm.rfl
  merge_loop-perm (suc fuel) (e ∷ heap) h =
      let (least, others) = pop_least e heap in
      let (moved, same) = pop_least-perm e heap in
      let left = contents-refill least.idx least.rest others in
      let enough : length (contents (refill least.idx least.rest others)) ≤ fuel =
        omega (arith, same, ap length left) in
      let rest = merge_loop-perm fuel (refill least.idx least.rest others) enough in
      Perm.trans (Perm.cons least.item (subst (Perm _) left rest)) (Perm.symm moved)

  pub total_chain_lem : (lists : List (List (Trade F))) → total lists ≡ length (chain lists)
  unfolding total
  total_chain_lem [] = refl
  total_chain_lem (rows ∷ more) =
      omega (arith, length-append rows (chain more), total_chain_lem more)

  -- The merged stream holds exactly the trades of the input lists, each as often as it stands in them,
  -- whether the lists are sorted or not.
  pub merge_trades-perm :
      (per_venue : List (String × List (Trade F)))
      → Perm (merge_trades per_venue) (chain (values per_venue))
  unfolding merge_trades
  merge_trades-perm per_venue =
      let lists = values per_venue in
      let all = contents-start 0 lists in
      subst (Perm _) all (
        merge_loop-perm (total lists) (start 0 lists)
          (omega (arith, total_chain_lem lists, ap length all)))
