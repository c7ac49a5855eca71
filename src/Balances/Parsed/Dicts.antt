-- ===== src/Balances/Parsed/Dicts.antt =====
-- The two dicts that `Balance.from_*` fill, the loop over the currencies, and what they ask of the
-- document (data/balance.py).
use Prim.Native.String.{String}
use crypto_crawler.Prelude.{ℕ, ℤ, ◌+ℤ◌, Option, none, some, ◌>>=◌, List, [], ◌∷◌, Bool, true, false}
use crypto_crawler.Enums.Currency
use crypto_crawler.Enums.Currency.{Currency}
use crypto_crawler.Sockets.{Json, listed, get_field, contains, is_text}
use crypto_crawler.Balances.{Balance, lookup, store}

-- `available_balance` and `total_balance`
pub record Volumes : Type 0 where
  pub available : List (ℕ × ℤ)
  pub total : List (ℕ × ℤ)

abbrev pub no_volumes : Volumes
no_volumes = record { available = []; total = [] }

abbrev pub set_available : ℕ → ℤ → Volumes → Volumes
set_available currency_id volume v = record v { available = store v.available currency_id volume }

abbrev pub set_total : ℕ → ℤ → Volumes → Volumes
set_total currency_id volume v = record v { total = store v.total currency_id volume }

-- `+=` where the currency has an entry, and `=` elsewhere.
unfoldable pub add_total : ℕ → ℤ → Volumes → Volumes
unfolding lookup ◌+ℤ◌
add_total currency_id volume v =
    set_total currency_id
      (elim (lookup v.total currency_id) [ none ↦ volume | some before ↦ before +ℤ volume ]) v

-- A loop whose body may end with an exception.
unfoldable pub in_turn :
    {A : Type 0} → (A → Volumes → Option Volumes) → List A → Volumes → Option Volumes
in_turn f [] v = some v
in_turn f (a ∷ rest) v = do w ← f a v; in_turn f rest w

-- The loop over `ARBITRAGE_CURRENCY`, from two empty dicts.
unfoldable pub for_each_currency : (ℕ → Volumes → Option Volumes) → Option Volumes
unfolding in_turn Currency.id Currency.values
for_each_currency f = in_turn (λ c. f (Currency.id c)) Currency.values no_volumes

-- `Balance(exchange_id, last_update, available_balance, total_balance)`
abbrev pub balance_of : ℕ → ℕ → Volumes → Balance
balance_of exchange_id last_update v = record {
  exchange_id = exchange_id;
  last_update = last_update;
  available_balance = v.available;
  total_balance = v.total;
}

-- The name of a currency is `None` where the table of an exchange has no such key.
abbrev any_null : List Json → Bool
any_null [] = false
any_null (Json.null ∷ js) = true
any_null (j ∷ js) = any_null js

-- `currency_name in json`, `json[currency_name]` and `currency_name == json`.
unfoldable pub has_key : Json → Option String → Option Bool
unfolding contains
has_key json (some currency_name) = contains json currency_name
has_key (Json.object fs) none = some false
has_key (Json.array js) none = some (any_null (listed js))
has_key _ none = none

unfoldable pub get_key : Json → Option String → Option Json
unfolding get_field
get_key json none = none
get_key json (some currency_name) = get_field json currency_name

unfoldable pub is_name : Option String → Json → Bool
is_name (some currency_name) json = is_text json currency_name
is_name none Json.null = true
is_name none _ = false
