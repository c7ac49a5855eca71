-- ===== src/Currencies/Dict.antt =====
-- A Python dict literal with no key twice, and the two ways to read it: `[key]` and `.get(key)`.
-- `none` is the `KeyError` of the first and the `None` of the second.
use Prim.Native.Char.{Char, code}
use Prim.Native.String.{String}
use text.Mathlib.Text.{◌==◌ as str_eq}
use crypto_crawler.Prelude.{ℕ, Option, none, some, List, [], ◌∷◌, ◌==◌, if◌then◌else◌}
use crypto_crawler.Enums.Currency
use crypto_crawler.Enums.Currency.{Currency}
use crypto_crawler.Enums.CurrencyPair
use crypto_crawler.Enums.Exchange
use crypto_crawler.Enums.Exchange.{Exchange}
use crypto_crawler.Enums.CurrencyPair.{CurrencyPair}

-- `str.upper` of Python 2 on bytes: the letters of ASCII.
abbrev upper_char : String → String → Char → Char
upper_char (String.◌∷◌ l ls) (String.◌∷◌ u us) c =
    if code l == code c then u else upper_char ls us c
upper_char _ _ c = c

unfoldable pub upper : String → String
upper String.[] = String.[]
upper (String.◌∷◌ c s) =
    String.◌∷◌ (upper_char "abcdefghijklmnopqrstuvwxyz" "ABCDEFGHIJKLMNOPQRSTUVWXYZ" c) (upper s)

module _ {V : Type 0} where
  unfoldable pub get_by_name : List (String × V) → String → Option V
  get_by_name [] name = none
  get_by_name ((k, v) ∷ table) name = if str_eq k name then some v else get_by_name table name

  -- Keys are members of an enumeration, and are looked up by their number.
  unfoldable pub get_by_id : {K : Type 0} → (K → ℕ) → List (K × V) → ℕ → Option V
  get_by_id id [] n = none
  get_by_id id ((k, v) ∷ table) n = if id k == n then some v else get_by_id id table n

  unfoldable pub get_by_pair : List (CurrencyPair × V) → ℕ → Option V
  unfolding get_by_id CurrencyPair.id
  get_by_pair = get_by_id CurrencyPair.id

  unfoldable pub get_by_currency : List (Currency × V) → ℕ → Option V
  unfolding get_by_id Currency.id
  get_by_currency = get_by_id Currency.id

  unfoldable pub get_by_exchange : List (Exchange × V) → ℕ → Option V
  unfolding get_by_id Exchange.id
  get_by_exchange = get_by_id Exchange.id
