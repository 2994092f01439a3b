-- ===== src/Consolidated/Merge/Ordering.antt =====
-- The order of the merged stream.
use Prim.Native.String.{String}
use crypto_data_aggregator.Prelude.{
  ℕ, zero, suc, ◌+◌, ◌≤◌, ◌≡◌, sym, inl, inr, List, [], ◌∷◌, arith, All, All-append, All-imp,
  All-and, Ascends, ◌⊎◌, subst, Bool-cases, leb→le,
}
use crypto_data_aggregator.Prelude.Order.{
  ◌≼◌, ≼_refl, ≼_of_not-≼, nat_order, text_order, pair_order, pair_le-fst,
}
use crypto_data_aggregator.Trade.{Trade}
use crypto_data_aggregator.Consolidated.Merge.{
  key, Entry, rank, rank_le, pop_least, refill, start, merge_loop, total, values, merge_trades,
}
use crypto_data_aggregator.Consolidated.Merge.Rearrange.{pending, contents}

module _ {ℓ} {F : Type ℓ} where
  -- What holds of an entry and of a heap holds of the two parts that `pop_least` makes of them.
  pub All-pop_least {κ} :
      (P : Entry F → Type κ) (e : Entry F) (heap : List (Entry F))
      → P e
      → All P heap
      → P (pop_least e heap).0 × All P (pop_least e heap).1
  unfolding pop_least
  All-pop_least P e [] p h = (p, tt)
  All-pop_least P e (h ∷ heap) p (q, r) =
      let (l, o) = All-pop_least P h heap q r in
      elim (Bool-cases (rank_le e (pop_least h heap).0)) [
        | inl t ↦ rw t (p, (q, r))
        | inr t ↦ rw t (l, (p, o))
      ]

  -- The two outcomes of comparing an entry with the least of the others.
  pub pop_least_cases :
      (e h : Entry F) (heap : List (Entry F))
      → let (least, others) = pop_least h heap in
        ((rank e ≼ rank least) × (pop_least e (h ∷ heap) ≡ (e, h ∷ heap)))
        ⊎ ((rank least ≼ rank e) × (pop_least e (h ∷ heap) ≡ (least, e ∷ others)))
  unfolding pop_least
  pop_least_cases e h heap =
      let least = (pop_least h heap).0 in
      elim (Bool-cases (rank_le e least)) [
        | inl t ↦ inl (t, rw t)
        | inr t ↦ inr (≼_of_not-≼ (rank e) (rank least) t, rw t)
      ]

  abbrev IsLeast : Entry F → List (Entry F) → Entry F × List (Entry F) → Type 0
  IsLeast e heap p = (rank p.0 ≼ rank e) × All (λ h. rank p.0 ≼ rank h) heap

  pub pop_least-IsLeast : (e : Entry F) (heap : List (Entry F)) → IsLeast e heap (pop_least e heap)
  unfolding pop_least
  pop_least-IsLeast e [] = (≼_refl (rank e), tt)
  pop_least-IsLeast e (h ∷ heap) =
      let least = (pop_least h heap).0 in
      let (up, rest) = pop_least-IsLeast h heap in
      let below = pair_order.le_trans (rank e) (rank least) in
      elim (pop_least_cases e h heap) [
        | inl (t, q) ↦
            subst (IsLeast e (h ∷ heap)) (sym q) (
              ≼_refl (rank e),
              (below (rank h) t up, All-imp (λ x p. below (rank x) t p) heap rest),
            )
        | inr (t, q) ↦ subst (IsLeast e (h ∷ heap)) (sym q) (t, (up, rest))
      ]

  All-contents {κ} :
      (P : Trade F → Type κ) (heap : List (Entry F))
      → All (λ e. All P (pending e)) heap
      → All P (contents heap)
  All-contents P [] h = tt
  All-contents P (e ∷ heap) h =
      All-append P (pending e) (contents heap) h.0 (All-contents P heap h.1)

  All-refill {κ} :
      (P : List (Trade F) → Type κ) (i : ℕ) (rows : List (Trade F)) (heap : List (Entry F))
      → P rows
      → All (λ e. P (pending e)) heap
      → All (λ e. P (pending e)) (refill i rows heap)
  All-refill P i [] heap p h = h
  All-refill P i (t ∷ ts) heap p h = (p, h)

  All-start {κ} :
      (P : List (Trade F) → Type κ) (i : ℕ) (lists : List (List (Trade F)))
      → All P lists
      → All (λ e. P (pending e)) (start i lists)
  unfolding start
  All-start P i [] h = tt
  All-start P i (rows ∷ more) h =
      All-refill P i rows (start (i + 1) more) h.0 (All-start P (i + 1) more h.1)

  -- Only trades of the heap are put out.
  pub All-merge_loop {κ} :
      (P : Trade F → Type κ) (fuel : ℕ) (heap : List (Entry F))
      → All (λ e. All P (pending e)) heap
      → All P (merge_loop fuel heap)
  unfolding merge_loop
  All-merge_loop P zero heap h = tt
  All-merge_loop P (suc fuel) [] h = tt
  All-merge_loop P (suc fuel) (e ∷ heap) h =
      let (l, o) = All-pop_least (λ x. All P (pending x)) e heap h.0 h.1 in
      let (least, others) = pop_least e heap in
      (
        l.0,
        All-merge_loop P fuel (refill least.idx least.rest others)
            (All-refill (All P) least.idx least.rest others l.1 o),
      )

  module _ {κ} (R : Trade F → Trade F → Type κ)
      (R_trans : (a b c : Trade F) → R a b → R b c → R a c)
      (R_of_key : (a b : Trade F) → key a ≼ key b → R a b) where
    All-pending :
        (t : Trade F) (e : Entry F)
        → key t ≼ key e.item
        → Ascends R (pending e)
        → All (R t) (pending e)
    All-pending t e k h =
        let first = R_of_key t e.item k in
        (first, All-imp (λ x r. R_trans t e.item x first r) e.rest h.0)

    merge_loop-Ascends :
        (fuel : ℕ) (heap : List (Entry F))
        → All (λ e. Ascends R (pending e)) heap
        → Ascends R (merge_loop fuel heap)
    unfolding merge_loop
    merge_loop-Ascends zero heap h = tt
    merge_loop-Ascends (suc fuel) [] h = tt
    merge_loop-Ascends (suc fuel) (e ∷ heap) h =
        let (least, others) = pop_least e heap in
        let (own, rest) = All-pop_least (λ x. Ascends R (pending x)) e heap h.0 h.1 in
        let (up, ups) = pop_least-IsLeast e heap in
        let over = All-pop_least (λ x. rank least ≼ rank x) e heap up ups in
        let all_over =
          All-imp (λ x (k, s). All-pending least.item x (pair_le-fst (rank least) (rank x) k) s)
            others (All-and _ _ others over.1 rest) in
        (
          All-merge_loop (R least.item) fuel (refill least.idx least.rest others)
              (All-refill (All (R least.item)) least.idx least.rest others own.0 all_over),
          merge_loop-Ascends fuel (refill least.idx least.rest others)
              (All-refill (Ascends R) least.idx least.rest others own.1 rest),
        )

    -- `R` may be any transitive relation that follows the key; if it orders each list, it orders the
    -- merged stream.
    pub merge_trades-Ascends :
        (per_venue : List (String × List (Trade F)))
        → All (Ascends R) (values per_venue)
        → Ascends R (merge_trades per_venue)
    unfolding merge_trades
    merge_trades-Ascends per_venue h =
        merge_loop-Ascends (total (values per_venue)) (start 0 (values per_venue))
          (All-start (Ascends R) 0 (values per_venue) h)

  abbrev pub LeKey : Trade F → Trade F → Type 0
  LeKey a b = key a ≼ key b

  abbrev pub LeTs : Trade F → Trade F → Type 0
  LeTs a b = a.ts_ns ≤ b.ts_ns

  -- If every input list ascends by (exchange time, receive time, venue), then so does the merged stream.
  pub merge_trades-LeKey :
      (per_venue : List (String × List (Trade F)))
      → All (Ascends LeKey) (values per_venue)
      → Ascends LeKey (merge_trades per_venue)
  merge_trades-LeKey per_venue h =
      merge_trades-Ascends LeKey (λ a b c p q. pair_order.le_trans (key a) (key b) (key c) p q)
        (λ a b k. k) per_venue h

  -- If every input list ascends by exchange time only, as the function asks for, then the merged
  -- stream ascends by exchange time.
  pub merge_trades-LeTs :
      (per_venue : List (String × List (Trade F)))
      → All (Ascends LeTs) (values per_venue)
      → Ascends LeTs (merge_trades per_venue)
  merge_trades-LeTs per_venue h =
      merge_trades-Ascends LeTs (λ a b c p q. omega arith)
        (λ a b k. leb→le a.ts_ns b.ts_ns (pair_le-fst (key a) (key b) k)) per_venue h
