-- ===== src/Balances/Parsed.antt =====
-- The balances that the exchanges send (`Balance.from_*` of data/balance.py). `none` is an exception.
pub mod Dicts
pub mod Covered
pub mod Sources
pub mod Laws
use Prim.Native.String.{String}
use crypto_crawler.Prelude.{
  ℕ, ℤ, pos, ◌+ℤ◌, Option, none, some, ◌>>=◌, List, [], ◌∷◌, Bool, true, false, if◌then◌else◌,
}
use crypto_crawler.Enums.Currency
use crypto_crawler.Enums.Exchange
use crypto_crawler.Enums.Exchange.{Exchange}
use crypto_crawler.Currencies.Poloniex.Currencies.{get_currency_name_for_poloniex}
use crypto_crawler.Currencies.Kraken.Currencies.{get_currency_name_for_kraken}
use crypto_crawler.Currencies.Bittrex.Currencies.{get_currency_name_for_bittrex}
use crypto_crawler.Currencies.Binance.Currencies.{get_currency_name_for_binance}
use crypto_crawler.Currencies.Huobi.Currencies.{get_currency_name_for_huobi}
use crypto_crawler.Sockets.{Json, iterate, get_field, contains, is_text}
use crypto_crawler.Balances.{Balance}
use crypto_crawler.Balances.Parsed.Dicts.{
  Volumes, no_volumes, set_available, set_total, add_total, in_turn, for_each_currency, balance_of,
  get_key, has_key, is_name,
}

-- `Decimal(json)` as a count of 0.00000001.
module _ (to_decimal : Json → Option ℤ) where
  -- The entry of a currency in the document of Poloniex.
  unfoldable pub poloniex_entry : ℕ → Json → Volumes → Option Volumes
  unfolding get_field ◌+ℤ◌
  poloniex_entry currency_id entry v = do
    available ← get_field entry "available"
    volume ← to_decimal available
    on_orders ← get_field entry "onOrders"
    locked_volume ← to_decimal on_orders
    some (set_total currency_id (locked_volume +ℤ volume) (set_available currency_id volume v))

  unfoldable pub poloniex_named : Json → ℕ → Volumes → Option Volumes
  unfolding get_key poloniex_entry get_currency_name_for_poloniex
  poloniex_named json_document currency_id v = do
    entry ← get_key json_document (get_currency_name_for_poloniex currency_id)
    poloniex_entry currency_id entry v

  -- The body of the loop of `from_poloniex`. `ZERO_BALANCE`, the float 0.0, is the number 0.
  unfoldable pub poloniex_currency : Json → ℕ → Volumes → Option Volumes
  unfolding has_key poloniex_named get_currency_name_for_poloniex
  poloniex_currency json_document currency_id v = do
    named ← has_key json_document (get_currency_name_for_poloniex currency_id)
    (if named
        then poloniex_named json_document currency_id (set_available currency_id (pos 0) v)
        else some (set_available currency_id (pos 0) v))

  unfoldable pub from_poloniex : ℕ → Json → Option Balance
  unfolding for_each_currency poloniex_currency Exchange.id
  from_poloniex last_update json_document = do
    v ← for_each_currency (poloniex_currency json_document)
    some (balance_of (Exchange.id Exchange.poloniex) last_update v)

  -- What the `try` of `from_kraken` reads; the inner `none` is a currency that is not there.
  unfoldable pub kraken_named : Json → Option String → Bool → Option (Option ℤ)
  unfolding get_key
  kraken_named json_document currency_name false = some none
  kraken_named json_document currency_name true = do
    entry ← get_key json_document currency_name
    volume ← to_decimal entry
    some (some volume)

  unfoldable pub kraken_volume : Json → Option String → Option (Option ℤ)
  unfolding has_key kraken_named
  kraken_volume json_document currency_name = do
    named ← has_key json_document currency_name
    kraken_named json_document currency_name named

  -- After an exception the zero stays.
  unfoldable pub kraken_found : ℕ → Option (Option ℤ) → Volumes → Volumes
  kraken_found currency_id (some (some volume)) v = set_available currency_id volume v
  kraken_found currency_id _ v = v

  unfoldable pub kraken_currency : Json → ℕ → Volumes → Option Volumes
  unfolding kraken_found kraken_volume get_currency_name_for_kraken
  kraken_currency json_document currency_id v = some (
      kraken_found currency_id
        (kraken_volume json_document (get_currency_name_for_kraken currency_id))
        (set_available currency_id (pos 0) v))

  -- `from_kraken`: what is available is the total too.
  unfoldable pub from_kraken : ℕ → Json → Option Balance
  unfolding for_each_currency kraken_currency Exchange.id
  from_kraken last_update json_document = do
    v ← for_each_currency (kraken_currency json_document)
    some (balance_of (Exchange.id Exchange.kraken) last_update (record v { total = v.available }))

  unfoldable pub bittrex_found : ℕ → Json → Volumes → Option Volumes
  unfolding get_field
  bittrex_found currency_id entry v = do
    balance ← get_field entry "Balance"
    total ← to_decimal balance
    free ← get_field entry "Available"
    volume ← to_decimal free
    some (set_available currency_id volume (set_total currency_id total v))

  unfoldable pub bittrex_balance_entry : ℕ → Json → Volumes → Option Volumes
  unfolding get_field is_name bittrex_found get_currency_name_for_bittrex
  bittrex_balance_entry currency_id entry v = do
    currency ← get_field entry "Currency"
    (if is_name (get_currency_name_for_bittrex currency_id) currency
        then bittrex_found currency_id entry v
        else some v)

  unfoldable pub bittrex_currency : Json → ℕ → Volumes → Option Volumes
  unfolding iterate in_turn bittrex_balance_entry
  bittrex_currency json_document currency_id v = do
    entries ← iterate json_document
    in_turn (bittrex_balance_entry currency_id) entries
        (set_available currency_id (pos 0) (set_total currency_id (pos 0) v))

  unfoldable pub from_bittrex : ℕ → Json → Option Balance
  unfolding for_each_currency bittrex_currency Exchange.id
  from_bittrex last_update json_document = do
    v ← for_each_currency (bittrex_currency json_document)
    some (balance_of (Exchange.id Exchange.bittrex) last_update v)

  unfoldable pub binance_found : ℕ → Json → Volumes → Option Volumes
  unfolding get_field ◌+ℤ◌
  binance_found currency_id entry v = do
    free ← get_field entry "free"
    volume ← to_decimal free
    locked ← get_field entry "locked"
    locked_volume ← to_decimal locked
    some (set_total currency_id (locked_volume +ℤ volume) (set_available currency_id volume v))

  unfoldable pub binance_balance_entry : ℕ → Json → Volumes → Option Volumes
  unfolding get_field is_name binance_found get_currency_name_for_binance
  binance_balance_entry currency_id entry v = do
    asset ← get_field entry "asset"
    (if is_name (get_currency_name_for_binance currency_id) asset
        then binance_found currency_id entry v
        else some v)

  unfoldable pub binance_currency : Json → ℕ → Volumes → Option Volumes
  unfolding get_field iterate in_turn binance_balance_entry
  binance_currency json_document currency_id v = do
    balances ← get_field json_document "balances"
    entries ← iterate balances
    in_turn (binance_balance_entry currency_id) entries (set_available currency_id (pos 0) v)

  unfoldable pub from_binance : ℕ → Json → Option Balance
  unfolding for_each_currency binance_currency Exchange.id
  from_binance last_update json_document = do
    v ← for_each_currency (binance_currency json_document)
    some (balance_of (Exchange.id Exchange.binance) last_update v)

  -- A frozen volume counts in the total only.
  unfoldable pub huobi_found : ℕ → Json → Volumes → Option Volumes
  unfolding get_field contains add_total
  huobi_found currency_id entry v = do
    balance ← get_field entry "balance"
    volume ← to_decimal balance
    ty ← get_field entry "type"
    frozen ← contains ty "frozen"
    (if frozen
        then some (add_total currency_id volume v)
        else some (add_total currency_id volume (set_available currency_id volume v)))

  unfoldable pub huobi_balance_entry : ℕ → Json → Volumes → Option Volumes
  unfolding get_field is_name huobi_found get_currency_name_for_huobi
  huobi_balance_entry currency_id entry v = do
    currency ← get_field entry "currency"
    (if is_name (get_currency_name_for_huobi currency_id) currency
        then huobi_found currency_id entry v
        else some v)

  unfoldable pub huobi_currency : Json → ℕ → Volumes → Option Volumes
  unfolding get_field iterate in_turn huobi_balance_entry
  huobi_currency json_document currency_id v = do
    balances ← get_field json_document "list"
    entries ← iterate balances
    in_turn (huobi_balance_entry currency_id) entries (set_available currency_id (pos 0) v)

  unfoldable pub from_huobi : ℕ → Json → Option Balance
  unfolding for_each_currency huobi_currency Exchange.id
  from_huobi last_update json_document = do
    v ← for_each_currency (huobi_currency json_document)
    some (balance_of (Exchange.id Exchange.huobi) last_update v)
