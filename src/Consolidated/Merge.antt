-- ===== src/Consolidated/Merge.antt =====
-- `merge_trades`: the k-way merge of per-venue trade lists. `heapq` is a bag of entries from which
-- `heappop` takes the one with the least `(key, i)`; the indices `i` differ, so it never compares the
-- trades themselves and the layout of the heap does not matter. Iterator `i` moves only when its own
-- entry is popped, so an entry carries what is left of its iterator.
pub mod Rearrange
pub mod Ordering
pub mod Stable
use Prim.Native.String.{String}
use crypto_data_aggregator.Prelude.{
  Bool, ℕ, zero, suc, ◌+◌, Option, none, some, List, [], ◌∷◌, length, if◌then◌else◌,
}
use crypto_data_aggregator.Prelude.Order.{Order, nat_order, text_order, pair_order}
use crypto_data_aggregator.Trade.{Trade, received}

abbrev pub Key : Type 0
Key = ℕ × (ℕ × String)

module _ {ℓ} {F : Type ℓ} where
  -- `_key(t)`
  abbrev pub key : Trade F → Key
  key t = (t.ts_ns, (received t, t.venue))

pub record Entry {ℓ} (F : Type ℓ) : Type ℓ where
  pub idx : ℕ
  pub item : Trade F
  pub rest : List (Trade F)

module _ {ℓ} {F : Type ℓ} where
  -- `(key, i)`, what the heap is ordered by.
  abbrev pub rank : Entry F → Key × ℕ
  rank e = (key e.item, e.idx)

  abbrev pub rank_le : Entry F → Entry F → Bool
  rank_le e h = pair_order.le (rank e) (rank h)

  abbrev pub heappush : Entry F → List (Entry F) → List (Entry F)
  heappush e heap = e ∷ heap

  -- The least entry of `e ∷ heap`, and the others.
  unfoldable pub pop_least : Entry F → List (Entry F) → Entry F × List (Entry F)
  pop_least e [] = (e, [])
  pop_least e (h ∷ heap) =
      let (least, others) = pop_least h heap in
      if rank_le e least then (e, h ∷ heap) else (least, e ∷ others)

  -- `nxt = next(iterators[i], None)` and the push of it, if there is one.
  abbrev pub refill : ℕ → List (Trade F) → List (Entry F) → List (Entry F)
  refill i [] heap = heap
  refill i (nxt ∷ left) heap = heappush (record { idx = i; item = nxt; rest = left }) heap

  -- The loop that pushes the first trade of every list.
  unfoldable pub start : ℕ → List (List (Trade F)) → List (Entry F)
  start i [] = []
  start i (rows ∷ more) = refill i rows (start (i + 1) more)

  -- `while heap: ...`, one round for each trade.
  unfoldable pub merge_loop : ℕ → List (Entry F) → List (Trade F)
  merge_loop zero heap = []
  merge_loop (suc fuel) [] = []
  merge_loop (suc fuel) (e ∷ heap) =
      let (least, others) = pop_least e heap in
      least.item ∷ merge_loop fuel (refill least.idx least.rest others)

  unfoldable pub total : List (List (Trade F)) → ℕ
  total [] = 0
  total (rows ∷ more) = length rows + total more

  abbrev pub values : List (String × List (Trade F)) → List (List (Trade F))
  values [] = []
  values ((venue, rows) ∷ more) = rows ∷ values more

  unfoldable pub merge_trades : List (String × List (Trade F)) → List (Trade F)
  unfolding merge_loop start pop_least total
  merge_trades per_venue = merge_loop (total (values per_venue)) (start 0 (values per_venue))
