-- ===== src/Sources.antt =====
-- cryptodata/sources/: the adapters of the venues. What a socket delivers is a list of frames, each as
-- `orjson.loads` decodes it, or `none` where it raises `JSONDecodeError`. A body of a stream's loop is a
-- function from a message to what it yields and how it ends; readings of the clock are arguments.
pub mod Yields
pub mod Trades
pub mod Channels
pub mod Streams
pub mod Registry
pub mod Connect
pub mod Best
pub mod Polls
pub mod Wire
pub mod Fetch
pub mod Book
pub mod Binance
pub mod Samples
mod Tests
pub mod Kraken
pub mod Coinbase
pub mod Bybit
pub mod BinanceFutures
pub mod Okx
pub mod Bitstamp
pub mod Gemini
pub mod Bitfinex
use Prim.Native.String.{String}
use crypto_data_aggregator.Prelude.{
  ℕ, ◌+◌, ◌*◌, Bool, Option, none, some, List, [], ◌∷◌, ◌++◌, if◌then◌else◌,
}
use crypto_data_aggregator.Prelude.Int.{ℤ, pos, negsuc}
use crypto_data_aggregator.Prelude.Order.{text_order, eq}
use crypto_data_aggregator.Float.{Float}
use crypto_data_aggregator.Rows.{Trade, Quote}
use crypto_data_aggregator.Python.{
  or_raise, value_error, times, integer, Result, ok, raise, ◌>>=◌, Json, null, array, no_items,
  object, no_members, Python, text_of, get, get_or, get_is, item, to_int, to_float, or_else,
  is_truthy, iterate, float_at, at,
}

-- What a loop yields, and the state it goes on with or the exception.
abbrev pub Emission {ℓ κ} : Type ℓ → Type κ → Type (ℓ ⊔ κ)
Emission B S = List B × Result S

-- What a stream knows when a message comes: how native tickers are read, and the clock's readings, for
-- the message and for each row made from it.
pub record Session : Type 0 where
  pub canon : String → Option String
  pub recv_ns : ℕ
  pub made_ns : ℕ → ℕ

module _ {κ} {B : Type κ} where
  abbrev pub add_emitted {σ} : {S : Type σ} → Option B → Emission B S → Emission B S
  add_emitted none rest = rest
  add_emitted (some b) rest = (b ∷ rest.0, rest.1)

  abbrev pub emit_row : Result (Option B) → Emission B (Unit {0}) → Emission B (Unit {0})
  emit_row (raise e) rest = ([], raise e)
  emit_row (ok o) rest = add_emitted o rest

module _ {ℓ κ} {A : Type ℓ} {B : Type κ} where
  -- `for row in rows`: each row is passed over or yields one item, until one raises.
  unfoldable pub for_rows : (ℕ → A → Result (Option B)) → ℕ → List A → Emission B (Unit {0})
  for_rows parse i [] = ([], ok tt)
  for_rows parse i (r ∷ rows) = emit_row (parse i r) (for_rows parse (i + 1) rows)

  abbrev pub on_rows : Result (List A) → (ℕ → A → Result (Option B)) → Emission B (Unit {0})
  on_rows (raise e) parse = ([], raise e)
  on_rows (ok rows) parse = for_rows parse 0 rows

-- `if not c: continue`
abbrev pub when {ℓ} : {B : Type ℓ} → Bool → Result (Option B) → Result (Option B)
when c row = if c then row else ok none

module _ {ℓ κ} {B : Type ℓ} {S : Type κ} where
  abbrev pub and_then : Emission B S → (S → Emission B S) → Emission B S
  and_then (bs, raise e) k = (bs, raise e)
  and_then (bs, ok s) k = (bs ++ (k s).0, (k s).1)

  -- `async for raw in ws`: a frame that is no JSON is passed over.
  unfoldable pub run_frames {μ} :
      {F : Type μ} → (ℕ → S → Json F → Emission B S) → ℕ → S → List (Option (Json F)) → Emission B S
  run_frames body n s [] = ([], ok s)
  run_frames body n s (none ∷ frames) = run_frames body (n + 1) s frames
  run_frames body n s (some msg ∷ frames) =
      and_then (body n s msg) λ t. run_frames body (n + 1) t frames

-- A stream that keeps no state: the rows of each message are parsed on their own.
unfoldable pub each_message {ℓ κ μ} :
    {F : Type ℓ} {A : Type κ} {B : Type μ}
    → (ℕ → Session)
    → (Json F → Result (List A))
    → (Session → ℕ → A → Result (Option B))
    → List (Option (Json F))
    → Emission B (Unit {0})
unfolding run_frames
each_message sessions rows parse frames =
    run_frames (λ n s msg. on_rows (rows msg) (parse (sessions n))) 0 tt frames

-- `if canonical is None: continue`
unfoldable pub when_known {ℓ} :
    {B : Type ℓ} → Option String → (String → Result B) → Result (Option B)
when_known none f = ok none
when_known (some canonical) f = f canonical >>= λ b. ok (some b)

-- `a or b`, for texts that may be `None`.
abbrev pub or_text : Option String → Option String → Option String
or_text none b = b
or_text (some s) b = if eq s "" then b else some s

-- `+1 if c else -1`
abbrev pub side_of : Bool → ℤ
side_of b = if b then pos 1 else negsuc 0

module _ {ℓ} {F : Type ℓ} where
  -- `to_canonical(native, self.name)`, which asks the native ticker for its `upper`.
  unfoldable pub canonical_of : Session → Json F → Result (Option String)
  canonical_of session native = text_of native >>= λ s. ok (session.canon s)

  -- `Trade(...)` and `Quote(...)` of a message, made as the `i`-th row.
  abbrev pub received_trade : Session → ℕ → String → String → ℤ → F → F → Bool → String → Trade F
  received_trade session i venue canonical ts_ns price size is_buy trade_id = record {
    ts_ns = ts_ns;
    recv_ns = pos session.recv_ns;
    symbol = canonical;
    venue = venue;
    price = price;
    size = size;
    side = side_of is_buy;
    trade_id = some trade_id;
    ingested_at_ns = pos (session.made_ns i);
  }

  abbrev pub received_quote : Session → ℕ → String → String → ℤ → F → F → F → F → Quote F
  received_quote session i venue canonical ts_ns bid_px ask_px bid_sz ask_sz = record {
    ts_ns = ts_ns;
    recv_ns = pos session.recv_ns;
    symbol = canonical;
    venue = venue;
    bid_px = bid_px;
    ask_px = ask_px;
    bid_sz = bid_sz;
    ask_sz = ask_sz;
    ingested_at_ns = pos (session.made_ns i);
  }

  -- `[]` and `{}`
  abbrev pub empty_list : Json F
  empty_list = array no_items

  abbrev pub empty_dict : Json F
  empty_dict = object no_members

  -- `if c: continue` before a message's rows.
  abbrev pub rows_if : Bool → Result (List (Json F)) → Result (List (Json F))
  rows_if c rows = if c then rows else ok []

module _ {ℓ} {F : Type ℓ} ⦃fl : Float F⦄ where
  -- `j.get(k) or d`
  unfoldable pub get_or_else : String → Json F → Json F → Result (Json F)
  get_or_else k d j = get k j >>= λ v. ok (or_else v d)

module _ {ℓ} {F : Type ℓ} ⦃py : Python F⦄ where
  -- The guard on the channel, and `for row in msg.get(k, [])`.
  unfoldable pub rows_of_channel : String → String → String → Json F → Result (List (Json F))
  rows_of_channel key channel k msg =
      get_is key channel msg >>= λ c. rows_if c (get_or k empty_list msg >>= iterate)

module _ {ℓ} {F : Type ℓ} ⦃fl : Float F⦄ ⦃py : Python F⦄ where
  -- `float(side[0][i])`
  unfoldable pub top_of_book : ℕ → Json F → Result F
  top_of_book i side = at 0 side >>= float_at i

  -- `_iso_to_ns`
  unfoldable pub iso_to_ns : Json F → Result ℤ
  iso_to_ns iso = text_of iso >>= λ s.
      let utc = if py.is_suffix "Z" s then py.concat (py.drop_last s) "+00:00" else s in
      or_raise value_error (py.utc_timestamp utc) >>= λ seconds.
      ok (fl.truncate (fl.mul seconds (py.float_of_int (pos 1_000_000_000))))

  -- `_ms_to_ns`
  unfoldable pub ms_to_ns : Json F → Result ℤ
  ms_to_ns ms = to_int ms >>= λ n. ok (times n 1_000_000)

  -- `int(d.get("microtimestamp") or (int(d.get("timestamp", 0)) * 1_000_000)) * 1_000`
  unfoldable pub micro_ts_ns : Json F → Result ℤ
  micro_ts_ns d = do
    micro ← get "microtimestamp" d
    us ← if is_truthy micro then to_int micro else (do
      seconds ← get_or "timestamp" (integer (pos 0)) d
      n ← to_int seconds
      ok (times n 1_000_000))
    ok (times us 1_000)
