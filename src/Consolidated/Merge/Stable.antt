-- ===== src/Consolidated/Merge/Stable.antt =====
-- The order of one venue's own trades in the merge.
use mathlib.Core.Path.{subst}
use Prim.Native.String.{String}
use crypto_data_aggregator.Prelude.Within.{IsWithin}
use crypto_data_aggregator.Prelude.{
  ℕ, zero, suc, ◌+◌, ◌≤◌, sym, ap, inl, inr, List, [], ◌∷◌, arith, length, All, All-imp,
}
use crypto_data_aggregator.Trade.{Trade}
use crypto_data_aggregator.Consolidated.Merge.{
  Entry, pop_least, refill, start, merge_loop, total, values, merge_trades,
}
use crypto_data_aggregator.Consolidated.Merge.Rearrange.{
  pending, contents, contents-refill, contents-start, pop_least-length, total_chain_lem,
}
use crypto_data_aggregator.Consolidated.Merge.Ordering.{pop_least_cases}

module _ {ℓ} {F : Type ℓ} where
  -- To hold of all of a heap it is enough to hold of the two parts that `pop_least` makes of it.
  abbrev Gathers : Entry F → List (Entry F) → Entry F × List (Entry F) → Type (ℓ + 1)
  Gathers e heap p = (P : Entry F → Type ℓ) → P p.0 → All P p.1 → P e × All P heap

  pop_least-Gathers : (e : Entry F) (heap : List (Entry F)) → Gathers e heap (pop_least e heap)
  unfolding pop_least
  pop_least-Gathers e [] = λ P p h. (p, tt)
  pop_least-Gathers e (h ∷ heap) = elim (pop_least_cases e h heap) [
    | inl (t, q) ↦ subst (Gathers e (h ∷ heap)) (sym q) (λ P p hs. (p, hs))
    | inr (t, q) ↦
        subst (Gathers e (h ∷ heap)) (sym q) (λ P p (pe, os). (pe, pop_least-Gathers h heap P p os))
  ]

  All-of_refill :
      (P : List (Trade F) → Type ℓ) (i : ℕ) (rows : List (Trade F)) (heap : List (Entry F))
      → P []
      → All (λ e. P (pending e)) (refill i rows heap)
      → P rows × All (λ e. P (pending e)) heap
  All-of_refill P i [] heap p h = (p, h)
  All-of_refill P i (t ∷ ts) heap p h = h

  All-of_start :
      (P : List (Trade F) → Type ℓ) (i : ℕ) (lists : List (List (Trade F)))
      → P []
      → All (λ e. P (pending e)) (start i lists)
      → All P lists
  unfolding start
  All-of_start P i [] p h = tt
  All-of_start P i (rows ∷ more) p h =
      let (own, rest) = All-of_refill P i rows (start (i + 1) more) p h in
      (own, All-of_start P (i + 1) more p rest)

  merge_loop-IsWithin :
      (fuel : ℕ) (heap : List (Entry F))
      → length (contents heap) ≤ fuel
      → All (λ e. IsWithin (pending e) (merge_loop fuel heap)) heap
  unfolding merge_loop
  merge_loop-IsWithin fuel [] h = tt
  merge_loop-IsWithin zero (e ∷ heap) h = absurd (omega arith)
  merge_loop-IsWithin (suc fuel) (e ∷ heap) h =
      let (least, others) = pop_least e heap in
      let next = refill least.idx least.rest others in
      let enough : length (contents next) ≤ fuel =
        omega (
          arith,
          pop_least-length e heap,
          ap length (contents-refill least.idx least.rest others),
        ) in
      let (own, rest) =
        All-of_refill (λ l. IsWithin l (merge_loop fuel next)) least.idx least.rest others
          (IsWithin.nil _) (merge_loop-IsWithin fuel next enough) in
      pop_least-Gathers e heap (λ x. IsWithin (pending x) (least.item ∷ merge_loop fuel next))
        (IsWithin.keep least.item own) (All-imp (λ x w. IsWithin.skip least.item w) others rest)

  -- Every input list stands inside the merged stream in its own order, sorted or not.
  pub merge_trades-IsWithin :
      (per_venue : List (String × List (Trade F)))
      → All (λ rows. IsWithin rows (merge_trades per_venue)) (values per_venue)
  unfolding merge_trades
  merge_trades-IsWithin per_venue =
      let lists = values per_venue in
      All-of_start (λ l. IsWithin l (merge_loop (total lists) (start 0 lists))) 0 lists
        (IsWithin.nil _)
        (merge_loop-IsWithin (total lists) (start 0 lists)
          (omega (arith, total_chain_lem lists, ap length (contents-start 0 lists))))
