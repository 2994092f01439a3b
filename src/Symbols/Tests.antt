-- ===== src/Symbols/Tests.antt =====
-- Runs of the symbol tables, and their theorems at concrete inputs.
use Prim.Native.String.{String}
use crypto_data_aggregator.Prelude.{
  ℕ, ◌^◌, ◌≡◌, refl, some, List, [], ◌∷◌, In, here, there, sym, ap, ◌∙◌, ◌>>=◌, if◌then◌else◌,
}
use crypto_data_aggregator.Prelude.Order.{text_order, text_le, pair_le, eq}
use crypto_data_aggregator.Prelude.Dict.{get, put}
use crypto_data_aggregator.Prelude.Sorting.{sorted_set}
use crypto_data_aggregator.Symbols.{
  venue_bitmask_index, Index, build_index, add_entries, add_entry, indexed, natives_of, add_natives,
  symbols_for_venue, carried_by, native_for, to_native, to_canonical,
}
use crypto_data_aggregator.Symbols.Roundtrip.{IsUnambiguous, to_canonical-to_native}
use crypto_data_aggregator.Symbols.Bitmask.{venue_bitmask_index_lem}

abbrev some_venues : List String
some_venues = "kraken" ∷ "binance" ∷ "kraken" ∷ []

bits_of_venues : venue_bitmask_index some_venues ≡ ("binance", 1) ∷ ("kraken", 2) ∷ []
unfolding venue_bitmask_index sorted_set text_le
bits_of_venues = refl

venue_bitmask_index_lem_example :
    ((v : String)
      → In v some_venues
      → (i : ℕ) × (get v (venue_bitmask_index some_venues) ≡ some (2 ^ i)))
    × ((v w : String) (m : ℕ)
        → get v (venue_bitmask_index some_venues) ≡ some m
        → get w (venue_bitmask_index some_venues) ≡ some m
        → v ≡ w)
venue_bitmask_index_lem_example = venue_bitmask_index_lem some_venues

abbrev bitcoin : List (String × String)
bitcoin = ("canonical", "BTC-USD") ∷ ("kraken", "xbtusd") ∷ ("okx", "BTC-USDT") ∷ []

abbrev ether : List (String × String)
ether = ("canonical", "ETH-USD") ∷ ("kraken", "ETHUSD") ∷ []

abbrev shout : String → String
shout s = if eq s "xbtusd" then "XBTUSD" else s

abbrev some_index : Index
some_index = record {
  by_canonical =
      (
        "BTC-USD",
        record {
          canonical = "BTC-USD";
          venue_native = ("kraken", "xbtusd") ∷ ("okx", "BTC-USDT") ∷ [];
        },
      )
      ∷ [];
  reverse = (("kraken", "XBTUSD"), "BTC-USD") ∷ (("okx", "BTC-USDT"), "BTC-USD") ∷ [];
}

bitcoin_index : build_index shout (bitcoin ∷ []) ≡ some some_index
unfolding build_index add_entries add_entry indexed natives_of add_natives get put text_le pair_le
bitcoin_index = refl

venues_of_two :
    build_index shout (bitcoin ∷ ether ∷ []) >>= (λ i. some (symbols_for_venue i "kraken"))
    ≡ some (("BTC-USD", "xbtusd") ∷ ("ETH-USD", "ETHUSD") ∷ [])
unfolding build_index add_entries add_entry indexed natives_of add_natives get put text_le pair_le
    symbols_for_venue carried_by native_for
venues_of_two = refl

bitcoin-IsUnambiguous : IsUnambiguous shout (bitcoin ∷ [])
bitcoin-IsUnambiguous c d venue n m (e, here p, q, r) (f, here s, t, u) same =
    let found : some c ≡ some d = sym q ∙ ap (get "canonical") (p ∙ sym s) ∙ t in cc found
bitcoin-IsUnambiguous c d venue n m (e, here p, q, r) (f, there k, t, u) same = elim k [ ]
bitcoin-IsUnambiguous c d venue n m (e, there k, q, r) y same = elim k [ ]

to_canonical-to_native_example : to_canonical shout some_index "xbtusd" "kraken" ≡ some "BTC-USD"
to_canonical-to_native_example =
    to_canonical-to_native shout (bitcoin ∷ []) some_index "BTC-USD" "kraken" "xbtusd"
      bitcoin-IsUnambiguous bitcoin_index (unfold to_native get native_for text_le in refl)
