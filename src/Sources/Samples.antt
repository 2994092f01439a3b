-- ===== src/Sources/Samples.antt =====
-- A `Python` for the runs of the adapters: venues print a number as so many strokes, with a sign where it
-- may be negative, and case and the like change nothing.
use Prim.Native.String.{String}
use crypto_data_aggregator.Prelude.{
  ℕ, zero, suc, ◌≡◌, refl, ap, Option, none, some, List, [], ◌∷◌, if◌then◌else◌,
}
use crypto_data_aggregator.Prelude.Int.{pos, negsuc}
use crypto_data_aggregator.Prelude.Order.{text_order, text_le, eq}
use crypto_data_aggregator.Float.Fixed.{Fixed, fixed, fixed_float}
use crypto_data_aggregator.Python.{
  Json, decimal, text, array, object, member, no_members, Members, items_of, Python,
}
use crypto_data_aggregator.Sources.{Session}

unfoldable pub strokes : ℕ → String
strokes zero = ""
strokes (suc n) = String.◌∷◌ "|" (strokes n)

unfoldable pub count : String → ℕ
count String.[] = 0
count (String.◌∷◌ c s) = suc (count s)

count-strokes : (n : ℕ) → count (strokes n) ≡ n
unfolding count strokes
count-strokes zero = refl
count-strokes (suc n) = ap suc (count-strokes n)

unfoldable pub show_fixed : Fixed → String
show_fixed (pos n) = String.◌∷◌ "+" (strokes n)
show_fixed (negsuc n) = String.◌∷◌ "-" (strokes n)

unfoldable pub read_fixed : String → Option Fixed
read_fixed String.[] = none
read_fixed (String.◌∷◌ c s) =
    some (if eq (String.◌∷◌ c String.[]) "-" then negsuc (count s) else pos (count s))

unfoldable pub letters : String → List String
letters String.[] = []
letters (String.◌∷◌ c s) = String.◌∷◌ c String.[] ∷ letters s

unfoldable pub text_or_empty : Json Fixed → String
text_or_empty (text s) = s
text_or_empty j = ""

instance abbrev pub python_fixed : Python Fixed
python_fixed = record {
  upper = λ s. s;
  lower = λ s. s;
  replace = λ old new s. if eq old s then new else s;
  is_part = λ part s. eq part s;
  is_prefix = λ part s. eq part s;
  is_suffix = λ part s. eq part s;
  before = λ sep s. s;
  drop_last = λ s. s;
  concat = λ s t. s;
  characters = letters;
  float_of_text = read_fixed;
  int_of_text = λ s. some (pos (count s));
  float_of_int = λ n. n;
  str_of = text_or_empty;
  utc_timestamp = λ s. none;
}

abbrev pub list : List (Json Fixed) → Json Fixed
list js = array (items_of js)

abbrev pub dict : List (String × Json Fixed) → Json Fixed
dict ms = object (members ms)
  where
    members : List (String × Json Fixed) → Members Fixed
    members [] = no_members
    members ((k, v) ∷ kvs) = member k v (members kvs)

pub read-show_fixed : (x : Fixed) → read_fixed (show_fixed x) ≡ some x
unfolding read_fixed show_fixed text_le
read-show_fixed (pos n) = ap (λ k. some (pos k)) (count-strokes n)
read-show_fixed (negsuc n) = ap (λ k. some (negsuc k)) (count-strokes n)

pub read-strokes : (n : ℕ) → python_fixed.int_of_text (strokes n) ≡ some (pos n)
read-strokes n = ap (λ k. some (pos k)) (count-strokes n)

abbrev pub plain_session : ℕ → Session
plain_session n = record { canon = λ s. some "BTC-USD"; recv_ns = 6_000_000_000; made_ns = λ i. 0 }

abbrev pub kraken_messages : List (Option (Json Fixed))
kraken_messages =
    some (
      dict (
        ("channel", text "book")
        ∷ ("type", text "snapshot")
        ∷ (
          "data",
          list (
              dict (
                ("symbol", text "BTC/USD")
                ∷ (
                  "bids",
                  list (
                      dict (("price", decimal (fixed 8)) ∷ ("qty", decimal (fixed 1)) ∷ [])
                      ∷ dict (("price", decimal (fixed 9)) ∷ ("qty", decimal (fixed 2)) ∷ [])
                      ∷ dict (("price", decimal (fixed 8)) ∷ ("qty", decimal (fixed 0)) ∷ [])
                      ∷ []),
                )
                ∷ [])
              ∷ []),
        )
        ∷ []))
    ∷ []
