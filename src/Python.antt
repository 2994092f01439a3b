-- ===== src/Python.antt =====
-- What the adapters use of Python: exceptions as values, and the values that `orjson.loads` and
-- `resp.json()` give back, with the operations of the language on them. A dict holds every key once, as
-- the decoder makes it. `Python` collects the functions of the standard library on texts, whose tables
-- and formats are Python's own.
pub mod Results
use Prim.Native.String.{String}
use crypto_data_aggregator.Prelude.{
  ℕ, zero, suc, ◌*◌, ◌/◌, Bool, true, false, not, ◌||◌, Option, none, some, List, [], ◌∷◌, length,
  if◌then◌else◌,
}
use crypto_data_aggregator.Prelude.Int.{ℤ, pos, negsuc, sub_ℕ, int_order}
use crypto_data_aggregator.Prelude.Order.{text_order, eq}
use crypto_data_aggregator.Float.{Float, float_order, nought, one}

pub data Exception : Type 0 where
  key_error : Exception
  type_error : Exception
  value_error : Exception
  attribute_error : Exception
  index_error : Exception
  not_implemented_error : Exception
  http_error : Exception
  constraint_error : Exception

pub data Result {ℓ} (A : Type ℓ) : Type ℓ where
  ok : A → Result A
  raise : Exception → Result A

infixl 10 ◌>>=◌
unfoldable pub ◌>>=◌ {ℓ κ} : {A : Type ℓ} {B : Type κ} → Result A → (A → Result B) → Result B
ok a >>= f = f a
raise e >>= f = raise e

mutual
  pub data Json {ℓ} (F : Type ℓ) : Type ℓ where
    null : Json F
    boolean : Bool → Json F
    integer : ℤ → Json F
    decimal : F → Json F
    text : String → Json F
    array : Items F → Json F
    object : Members F → Json F

  pub data Items {ℓ} (F : Type ℓ) : Type ℓ where
    no_items : Items F
    item_of : Json F → Items F → Items F

  pub data Members {ℓ} (F : Type ℓ) : Type ℓ where
    no_members : Members F
    member : String → Json F → Members F → Members F

pub record Python {ℓ} (F : Type ℓ) : Type ℓ where
  pub upper : String → String
  pub lower : String → String
  -- `s.replace(old, new)`, with `s` last.
  pub replace : String → String → String → String
  -- `part in s`, `s.startswith(part)` and `s.endswith(part)`, with `s` last.
  pub is_part : String → String → Bool
  pub is_prefix : String → String → Bool
  pub is_suffix : String → String → Bool
  -- `s.split(sep)[0]`, with `s` last.
  pub before : String → String → String
  -- `s[:-1]`, and `s + t`.
  pub drop_last : String → String
  pub concat : String → String → String
  -- The characters of a text, each as a text.
  pub characters : String → List String
  -- `float(s)` and `int(s)`; `none` is the `ValueError`.
  pub float_of_text : String → Option F
  pub int_of_text : String → Option ℤ
  pub float_of_int : ℤ → F
  -- `str(v)`
  pub str_of : Json F → String
  -- `datetime.fromisoformat(s)`, taken as UTC if it names no zone, as `.timestamp()`.
  pub utc_timestamp : String → Option F

unfoldable pub times : ℤ → ℕ → ℤ
times (pos n) k = pos (n * k)
times (negsuc n) k = sub_ℕ 0 (suc n * k)

-- `n // k`, rounded down.
unfoldable pub over : ℤ → ℕ → ℤ
over (pos n) k = pos (n / k)
over (negsuc n) k = negsuc (n / k)

module _ {ℓ} {A : Type ℓ} where
  abbrev pub or_raise : Exception → Option A → Result A
  or_raise e none = raise e
  or_raise e (some a) = ok a

module _ {ℓ} {F : Type ℓ} where
  abbrev pub elements : Items F → List (Json F)
  elements no_items = []
  elements (item_of j js) = j ∷ elements js

  abbrev pub items_of : List (Json F) → Items F
  items_of [] = no_items
  items_of (j ∷ js) = item_of j (items_of js)

  abbrev pub find : String → Members F → Option (Json F)
  find k no_members = none
  find k (member j v ms) = if eq j k then some v else find k ms

  abbrev pub names : Members F → List (Json F)
  names no_members = []
  names (member j v ms) = text j ∷ names ms

  abbrev pub nth : ℕ → List (Json F) → Option (Json F)
  nth i [] = none
  nth zero (j ∷ js) = some j
  nth (suc i) (j ∷ js) = nth i js

  abbrev pub last_item : List (Json F) → Option (Json F)
  last_item [] = none
  last_item (j ∷ []) = some j
  last_item (j ∷ k ∷ js) = last_item (k ∷ js)

  abbrev pub texts : List String → List (Json F)
  texts [] = []
  texts (s ∷ ss) = text s ∷ texts ss

  abbrev pub or_default : Json F → Option (Json F) → Json F
  or_default d none = d
  or_default d (some v) = v

  -- `j.get(k, d)`
  unfoldable pub get_or : String → Json F → Json F → Result (Json F)
  get_or k d (object ms) = ok (or_default d (find k ms))
  get_or k d j = raise attribute_error

  -- `j.get(k)`
  abbrev pub get : String → Json F → Result (Json F)
  get k j = get_or k null j

  -- `j[k]` for a text `k`.
  unfoldable pub item : String → Json F → Result (Json F)
  item k (object ms) = or_raise key_error (find k ms)
  item k j = raise type_error

  -- `s == j` for a text `s`.
  unfoldable pub is_text : String → Json F → Bool
  is_text s (text t) = eq s t
  is_text s j = false

  -- `j.get(k) == s`, as the guards of the streams have it.
  abbrev pub get_is : String → String → Json F → Result Bool
  get_is k s j = get k j >>= λ v. ok (is_text s v)

  -- `isinstance(j, list)`, `isinstance(j, dict)` and `isinstance(j, str)`.
  unfoldable pub is_list : Json F → Bool
  is_list (array js) = true
  is_list j = false

  unfoldable pub is_dict : Json F → Bool
  is_dict (object ms) = true
  is_dict j = false

  unfoldable pub is_str : Json F → Bool
  is_str (text s) = true
  is_str j = false

  -- The text whose method is called: `j.upper()`, `j.lower()`, `j.replace(old, new)`.
  unfoldable pub text_of : Json F → Result String
  text_of (text s) = ok s
  text_of j = raise attribute_error

module _ {ℓ} {F : Type ℓ} ⦃py : Python F⦄ where
  -- `for x in j`
  unfoldable pub iterate : Json F → Result (List (Json F))
  iterate (array js) = ok (elements js)
  iterate (object ms) = ok (names ms)
  iterate (text s) = ok (texts (py.characters s))
  iterate j = raise type_error

  -- `len(j)`
  unfoldable pub size_of : Json F → Result ℕ
  size_of (array js) = ok (length (elements js))
  size_of (object ms) = ok (length (names ms))
  size_of (text s) = ok (length (py.characters s))
  size_of j = raise type_error

  -- `j[i]` for a number `i`; a dict has no such key.
  unfoldable pub at : ℕ → Json F → Result (Json F)
  at i (array js) = or_raise index_error (nth i (elements js))
  at i (text s) = or_raise index_error (nth i (texts (py.characters s)))
  at i (object ms) = raise key_error
  at i j = raise type_error

  -- `j[-1]`
  unfoldable pub last_at : Json F → Result (Json F)
  last_at (array js) = or_raise index_error (last_item (elements js))
  last_at (text s) = or_raise index_error (last_item (texts (py.characters s)))
  last_at (object ms) = raise key_error
  last_at j = raise type_error

  abbrev pub any_is : String → List (Json F) → Bool
  any_is s [] = false
  any_is s (j ∷ js) = is_text s j || any_is s js

  -- `s in j` for a text `s`.
  unfoldable pub has : String → Json F → Result Bool
  unfolding is_text
  has s (object ms) = ok (any_is s (names ms))
  has s (array js) = ok (any_is s (elements js))
  has s (text t) = ok (py.is_part s t)
  has s j = raise type_error

module _ {ℓ} {F : Type ℓ} ⦃fl : Float F⦄ where
  -- Whether `if j` takes the branch.
  unfoldable pub is_truthy : Json F → Bool
  is_truthy null = false
  is_truthy (boolean b) = b
  is_truthy (integer n) = not (eq n (pos 0))
  is_truthy (decimal x) = not (eq x nought)
  is_truthy (text s) = not (eq s "")
  is_truthy (array no_items) = false
  is_truthy (array (item_of j js)) = true
  is_truthy (object no_members) = false
  is_truthy (object (member k j ms)) = true

  -- `a or b`
  unfoldable pub or_else : Json F → Json F → Json F
  unfolding is_truthy
  or_else a b = if is_truthy a then a else b

module _ {ℓ} {F : Type ℓ} ⦃fl : Float F⦄ ⦃py : Python F⦄ where
  -- `int(j)` and `float(j)`
  unfoldable pub to_int : Json F → Result ℤ
  to_int (integer n) = ok n
  to_int (decimal x) = ok (fl.truncate x)
  to_int (boolean b) = ok (if b then pos 1 else pos 0)
  to_int (text s) = or_raise value_error (py.int_of_text s)
  to_int j = raise type_error

  unfoldable pub to_float : Json F → Result F
  to_float (decimal x) = ok x
  to_float (integer n) = ok (py.float_of_int n)
  to_float (boolean b) = ok (if b then one else nought)
  to_float (text s) = or_raise value_error (py.float_of_text s)
  to_float j = raise type_error

  -- `int(j[k])`, `float(j[k])` and `float(j.get(k, 0.0))` for a text `k`; `int(j[i])` and `float(j[i])`
  -- for a number `i`.
  unfoldable pub int_item : String → Json F → Result ℤ
  int_item k j = item k j >>= to_int

  unfoldable pub float_item : String → Json F → Result F
  float_item k j = item k j >>= to_float

  unfoldable pub float_get : String → Json F → Result F
  float_get k j = get_or k (decimal nought) j >>= to_float

  unfoldable pub int_at : ℕ → Json F → Result ℤ
  int_at i j = at i j >>= to_int

  unfoldable pub float_at : ℕ → Json F → Result F
  float_at i j = at i j >>= to_float

  -- `str(j.get(k, ""))`
  unfoldable pub str_get : String → Json F → Result String
  str_get k j = get_or k (text "") j >>= λ v. ok (py.str_of v)

  -- `int(j.get(k, n))`
  unfoldable pub int_get : String → ℤ → Json F → Result ℤ
  int_get k n j = get_or k (integer n) j >>= to_int
