-- ===== src/Builds/Stored.antt =====
-- What holds of all stored trades holds of the trades that `collect_trades` and `spot_only` give.
use Prim.Native.String.{String}
use crypto_data_aggregator.Prelude.{◌≡◌, refl, ap, true, List, [], ◌∷◌, chain, All, All-append}
use crypto_data_aggregator.Prelude.Order.{nat_order}
use crypto_data_aggregator.Prelude.Keyed.{sorted_by, All-sorted_by}
use crypto_data_aggregator.Float.{float_order}
use crypto_data_aggregator.Trade.{Trade}
use crypto_data_aggregator.Consolidated.Bars.{contains}
use crypto_data_aggregator.Sources.Registry.{spot_venues}
use crypto_data_aggregator.Builds.{collect_trades, spot_only}

module _ {ℓ} {F : Type ℓ} where
  -- The trades of all venues.
  abbrev pub Every {κ} : (Trade F → Type κ) → List (String × List (Trade F)) → Type κ
  Every P [] = Unit
  Every P ((venue, rows) ∷ more) = All P rows × Every P more

abbrev pub AreSpot {κ} : {B : Type κ} → List (String × B) → Type 0
AreSpot per_venue = All (λ v. contains v.0 spot_venues ≡ true) per_venue

module _ {ℓ} {F : Type ℓ} where
  -- Each venue's trades of each file.
  abbrev pub Stored {κ} : (Trade F → Type κ) → List (String × List (List (Trade F))) → Type κ
  Stored P stored = All (λ v. All (All P) v.1) stored

  All-chain {κ} :
      (P : Trade F → Type κ) (files : List (List (Trade F)))
      → All (All P) files
      → All P (chain files)
  All-chain P [] h = tt
  All-chain P (rows ∷ files) h = All-append P rows (chain files) h.0 (All-chain P files h.1)

  pub collect_trades-Every {κ} :
      (P : Trade F → Type κ) (stored : List (String × List (List (Trade F))))
      → Stored P stored
      → Every P (collect_trades stored)
  unfolding collect_trades
  collect_trades-Every P [] h = tt
  collect_trades-Every P ((venue, files) ∷ more) h =
      collected (collect_trades more) (sorted_by (λ r. r.ts_ns) (chain files))
        (All-sorted_by (λ r. r.ts_ns) P (chain files) (All-chain P files h.0))
        (collect_trades-Every P more h.1)
    where
      collected :
          (rest : List (String × List (Trade F))) (rows : List (Trade F))
          → All P rows
          → Every P rest
          → Every P (elim rows [ [] ↦ rest | r ∷ rs ↦ (venue, r ∷ rs) ∷ rest ])
      collected rest [] k l = l
      collected rest (r ∷ rs) k l = (k, l)

  pub spot_only_all :
      (per_venue : List (String × List (Trade F)))
      → AreSpot per_venue
      → spot_only per_venue ≡ per_venue
  unfolding spot_only
  spot_only_all [] h = refl
  spot_only_all ((venue, rows) ∷ more) h = rw h.0 (ap (◌∷◌ (venue, rows)) (spot_only_all more h.1))

  pub collect_trades-AreSpot :
      (stored : List (String × List (List (Trade F))))
      → AreSpot stored
      → AreSpot (collect_trades stored)
  unfolding collect_trades
  collect_trades-AreSpot [] h = tt
  collect_trades-AreSpot ((venue, files) ∷ more) h =
      collected (collect_trades more) (sorted_by (λ r. r.ts_ns) (chain files))
        (collect_trades-AreSpot more h.1)
    where
      collected :
          (rest : List (String × List (Trade F))) (rows : List (Trade F))
          → AreSpot rest
          → AreSpot (elim rows [ [] ↦ rest | r ∷ rs ↦ (venue, r ∷ rs) ∷ rest ])
      collected rest [] l = l
      collected rest (r ∷ rs) l = (h.0, l)
