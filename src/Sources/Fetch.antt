-- ===== src/Sources/Fetch.antt =====
-- cryptodata/sources/: the backfill of the adapters, loops of requests to a venue's REST server. The server
-- is a parameter: what it answers to a request, the number of the request among those of the loop
-- included, or the exception that the request or `raise_for_status` raises.
pub mod Loops
pub mod Kraken
pub mod Coinbase
pub mod Okx
pub mod Bybit
pub mod Bitfinex
pub mod Bitstamp
pub mod Gemini
pub mod Ends
pub mod Candles
pub mod Windows
mod Tests
use Prim.Native.String.{String}
use crypto_data_aggregator.Prelude.{
  ℕ, zero, suc, ◌+◌, Bool, true, false, Option, none, some, List, [], ◌∷◌, ◌++◌, if◌then◌else◌,
}
use crypto_data_aggregator.Prelude.Int.{ℤ, pos}
use crypto_data_aggregator.Prelude.Order.{eq, text_order}
use crypto_data_aggregator.Rows.{Trade}
use crypto_data_aggregator.Python.{Result, ok, raise, ◌>>=◌, Exception}
use crypto_data_aggregator.Sources.{side_of}

-- What the body of a loop over rows does with one: `continue`, `out.append(...)`, `continue` after
-- `stop = True`, or an end of the loop with `stop` set.
pub data Parsed {ℓ} (B : Type ℓ) : Type ℓ where
  skip : Parsed B
  keep : B → Parsed B
  skip_stopping : Parsed B
  halt : Parsed B

-- The rows that are kept, and whether `stop` was set.
abbrev pub Collected {ℓ} : Type ℓ → Type ℓ
Collected B = List B × Bool

module _ {ℓ} {B : Type ℓ} where
  abbrev pub collect_row : Parsed B → Result (Collected B) → Result (Collected B)
  collect_row skip rest = rest
  collect_row (keep b) rest = rest >>= λ r. ok (b ∷ r.0, r.1)
  collect_row skip_stopping rest = rest >>= λ r. ok (r.0, true)
  collect_row halt rest = ok ([], true)

module _ {ℓ κ} {A : Type ℓ} {B : Type κ} where
  -- `for r in rows`
  unfoldable pub collect : (ℕ → A → Result (Parsed B)) → ℕ → List A → Result (Collected B)
  collect parse i [] = ok ([], false)
  collect parse i (r ∷ rows) =
      let rest = collect parse (i + 1) rows in parse i r >>= λ p. collect_row p rest

-- A turn of a loop of requests: what it appends, and the cursor that it goes on with, if it does.
abbrev pub Turn {ℓ κ} : Type ℓ → Type κ → Type (ℓ ⊔ κ)
Turn B S = Result (List B × Option S)

module _ {ℓ} {B : Type ℓ} where
  abbrev pub prepend : List B → Option (Result (List B)) → Option (Result (List B))
  prepend bs none = none
  prepend bs (some (raise e)) = some (raise e)
  prepend bs (some (ok cs)) = some (ok (bs ++ cs))

  abbrev pub before : List B → Result (List B) → Result (List B)
  before bs (raise e) = raise e
  before bs (ok cs) = ok (bs ++ cs)

module _ {ℓ κ} {B : Type ℓ} {S : Type κ} where
  abbrev pub after_turn : Turn B S → (S → Option (Result (List B))) → Option (Result (List B))
  after_turn (raise e) k = some (raise e)
  after_turn (ok (bs, none)) k = some (ok bs)
  after_turn (ok (bs, some s)) k = prepend bs (k s)

  -- `while c:`, on fuel; `none` is a loop that the fuel does not see the end of.
  unfoldable pub fetch_while :
      (S → Bool) → (ℕ → S → Turn B S) → ℕ → ℕ → S → Option (Result (List B))
  fetch_while c page zero n s = if c s then none else some (ok [])
  fetch_while c page (suc fuel) n s =
      if c s then (after_turn (page n s) λ t. fetch_while c page fuel (n + 1) t) else some (ok [])

  abbrev pub after_page : Turn B S → (S → Result (List B)) → Result (List B)
  after_page (raise e) k = raise e
  after_page (ok (bs, none)) k = ok bs
  after_page (ok (bs, some s)) k = before bs (k s)

  -- `for _ in range(m):`
  unfoldable pub fetch_for : (ℕ → S → Turn B S) → ℕ → ℕ → S → Result (List B)
  fetch_for page zero n s = ok []
  fetch_for page (suc m) n s = after_page (page n s) λ t. fetch_for page m (n + 1) t

  abbrev pub go_on_if : Bool → List B → S → Turn B S
  go_on_if c bs s = ok (bs, if c then some s else none)

-- `if not native: return []`
abbrev pub with_native {ℓ} : {X : Type ℓ} → X → Option String → (String → X) → X
with_native empty none f = empty
with_native empty (some native) f = if eq native "" then empty else f native

-- `d.get(k, v)`, of what `d.get(k)` finds.
abbrev pub value_or {ℓ} : {V : Type ℓ} → V → Option V → V
value_or d none = d
value_or d (some v) = v

-- The dict of a candle.
pub record Kline {ℓ} (F : Type ℓ) : Type ℓ where
  pub ts_ns : ℤ
  pub «open» : F
  pub high : F
  pub low : F
  pub close : F
  pub volume : F
  pub trades : ℤ

-- `Trade(...)` of a row of a backfill, with its own time as the time of receipt.
abbrev pub fetched_trade {ℓ} :
    {F : Type ℓ} → (ℕ → ℕ) → ℕ → String → String → ℤ → F → F → Bool → Option String → Trade F
fetched_trade made_ns i symbol venue ts_ns price size is_buy trade_id = record {
  ts_ns = ts_ns;
  recv_ns = ts_ns;
  symbol = symbol;
  venue = venue;
  price = price;
  size = size;
  side = side_of is_buy;
  trade_id = trade_id;
  ingested_at_ns = pos (made_ns i);
}
