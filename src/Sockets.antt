-- ===== src/Sockets.antt =====
-- The messages of the sockets: what `json.loads` gives, and how the parsers read it
-- (*/socket_api.py).
pub mod Parsers
pub mod Poloniex
pub mod Received
pub mod Laws
pub mod RoundTrip
use Prim.Native.Char.{Char}
use Prim.Native.String.{String}
use text.Mathlib.Text.{◌==◌ as str_eq, find?}
use crypto_crawler.Prelude.{
  ℕ, Bool, true, false, Option, none, some, ◌>>=◌, List, [], ◌∷◌, get_elem?, if◌then◌else◌,
}
use crypto_crawler.OrderBook.Search.{Deal}

-- A value of `json.loads`. A number is its text; the fields of an object stand in the order in which
-- Python iterates over them.
mutual
  pub data Json : Type 0 where
    null : Json
    boolean : Bool → Json
    number : String → Json
    str : String → Json
    array : Items → Json
    object : Fields → Json

  pub data Items : Type 0 where
    nil : Items
    cons : Json → Items → Items

  pub data Fields : Type 0 where
    end : Fields
    field : String → Json → Fields → Fields

-- What the parsers use of Python on a value: `Decimal(str(x))` as a count of 0.00000001, `long(x)`,
-- `int(x)`, each with `none` for an exception, and `x == n` for a whole number.
pub record Reader : Type 0 where
  pub to_decimal : Json → Option ℕ
  pub to_long : Json → Option ℕ
  pub to_int : Json → Option ℕ
  pub equals : Json → ℕ → Bool

abbrev pub listed : Items → List Json
listed nil = []
listed (cons j js) = j ∷ listed js

abbrev pub characters : String → List Json
characters String.[] = []
characters (String.◌∷◌ c s) = str (String.◌∷◌ c String.[]) ∷ characters s

abbrev pub keys_of : Fields → List Json
keys_of end = []
keys_of (field k v fs) = str k ∷ keys_of fs

abbrev pub entries_of : Fields → List (Json × Json)
entries_of end = []
entries_of (field k v fs) = (str k, v) ∷ entries_of fs

-- `for x in json`; `none` is the `TypeError` of a value that is not iterable.
unfoldable pub iterate : Json → Option (List Json)
iterate (array js) = some (listed js)
iterate (str s) = some (characters s)
iterate (object fs) = some (keys_of fs)
iterate _ = none

-- `json.iteritems()`
unfoldable pub iteritems : Json → Option (List (Json × Json))
iteritems (object fs) = some (entries_of fs)
iteritems _ = none

abbrev pub find_field : Fields → String → Option Json
find_field end key = none
find_field (field k v fs) key = if str_eq k key then some v else find_field fs key

-- `json["key"]`, and `json[n]`.
unfoldable pub get_field : Json → String → Option Json
get_field (object fs) key = find_field fs key
get_field _ key = none

unfoldable pub get_item : Json → ℕ → Option Json
get_item (array js) n = get_elem? (listed js) n
get_item (str s) n = get_elem? (characters s) n
get_item _ n = none

abbrev pub is_some : {A : Type 0} → Option A → Bool
is_some none = false
is_some (some a) = true

abbrev pub is_text : Json → String → Bool
is_text (str s) key = str_eq s key
is_text _ key = false

abbrev pub any_text : List Json → String → Bool
any_text [] key = false
any_text (j ∷ js) key = if is_text j key then true else any_text js key

-- `"key" in json`
unfoldable pub contains : Json → String → Option Bool
contains (object fs) key = some (is_some (find_field fs key))
contains (array js) key = some (any_text (listed js) key)
contains (str s) key = some (is_some (find? s key))
contains _ key = none

-- A value for each element, and an exception where one has an exception.
abbrev pub each : {A B : Type 0} → (A → Option B) → List A → Option (List B)
each f [] = some []
each f (x ∷ xs) = do y ← f x; ys ← each f xs; some (y ∷ ys)

-- `Deal(price, volume)`
unfoldable pub read_deal : Reader → Json → Json → Option Deal
read_deal reader price volume = do
  p ← reader.to_decimal price
  v ← reader.to_decimal volume
  some (record { price = p; volume = v })
