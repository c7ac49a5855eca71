-- ===== src/Balances.antt =====
-- Balances of currencies at the exchanges: data/balance.py and data/balance_state.py.
pub mod Change
pub mod Laws
pub mod RoundTrip
pub mod Parsed
use crypto_crawler.Prelude.{
  ℕ, ◌+◌, ℤ, ◌+ℤ◌, ◌-ℤ◌, ltb_ℤ, Option, none, some, ◌>>=◌, List, [], ◌∷◌, Bool, true, false, not,
  ◌||◌, ltb, ◌==◌, if◌then◌else◌, map,
}
use crypto_crawler.Enums.Currency
use crypto_crawler.Enums.Exchange
use crypto_crawler.Currencies.Dict.{get_by_id}
use crypto_crawler.Currencies.Split.{split_currency_pairs}
use crypto_crawler.Currencies.CurrencyNames.{get_currency_name_by_id}
use crypto_crawler.OrderBook.Book.{OrderBook}
use crypto_crawler.Precision.Interface.{Decimals}
use crypto_crawler.Balances.Change.{get_change}

-- A dict with numbers for keys: `d[key]`, and `d[key] = value`.
unfoldable pub lookup : {V : Type 0} → List (ℕ × V) → ℕ → Option V
unfolding get_by_id
lookup dict n = get_by_id (λ k. k) dict n

unfoldable pub store : {V : Type 0} → List (ℕ × V) → ℕ → V → List (ℕ × V)
store [] n v = (n, v) ∷ []
store ((k, w) ∷ dict) n v = if k == n then (k, v) ∷ dict else (k, w) ∷ store dict n v

pub record Balance : Type 0 where
  pub exchange_id : ℕ
  pub last_update : ℕ
  pub available_balance : List (ℕ × ℤ)
  pub total_balance : List (ℕ × ℤ)

-- The entry of a currency against a threshold; `none` is the `KeyError` of a currency without a name.
unfoldable pub enough_of : Option ℤ → ℕ → ℤ → Option Bool
unfolding get_currency_name_by_id
enough_of (some volume) currency_id threshold = some (ltb_ℤ threshold volume)
enough_of none currency_id threshold = do name ← get_currency_name_by_id currency_id; some false

-- `Balance.do_we_have_enough`
unfoldable pub do_we_have_enough : Balance → ℕ → ℤ → Option Bool
unfolding lookup enough_of
do_we_have_enough self currency_id threshold =
    enough_of (lookup self.available_balance currency_id) currency_id threshold

-- `Balance.get_balance`; `none` is the failed assertion.
unfoldable pub get_balance : Balance → ℕ → Option ℤ
unfolding lookup
get_balance self currency_id = lookup self.available_balance currency_id

-- `Balance.expired` at a time: whether the difference is above the threshold.
unfoldable pub balance_expired : Balance → ℕ → ℕ → Bool
balance_expired self now threshold = ltb (self.last_update + threshold) now

pub record BalanceState : Type 0 where
  pub balance_per_exchange : List (ℕ × Balance)

-- `dummy_balance_init`
unfoldable pub dummy_balance_init : ℕ → ℤ → ℤ → BalanceState
unfolding Currency.values Currency.id Exchange.values Exchange.id
dummy_balance_init timest default_volume default_available_volume =
    let total_balance = map (λ c. (Currency.id c, default_volume)) Currency.values in
    let available_balance = map (λ c. (Currency.id c, default_available_volume)) Currency.values in
    record {
      balance_per_exchange =
          map
            (λ e. (
              Exchange.id e,
              record {
                exchange_id = Exchange.id e;
                last_update = timest;
                available_balance = available_balance;
                total_balance = total_balance;
              },
            ))
            Exchange.values;
    }

-- `self.balance_per_exchange[exchange_id] = ...`
abbrev set_balance : BalanceState → ℕ → Balance → BalanceState
set_balance self exchange_id balance = record self {
  balance_per_exchange = store self.balance_per_exchange exchange_id balance;
}

-- `self.balance_per_exchange[exchange_id].available_balance[currency_id]`
unfoldable pub get_available_volume_by_currency : BalanceState → ℕ → ℕ → Option ℤ
get_available_volume_by_currency self currency_id exchange_id = do
  balance ← lookup self.balance_per_exchange exchange_id
  lookup balance.available_balance currency_id

-- That entry as a function of the one before.
unfoldable pub update_available : BalanceState → ℕ → ℕ → (ℤ → ℤ) → Option BalanceState
update_available self currency_id exchange_id f = do
  balance ← lookup self.balance_per_exchange exchange_id
  prev_volume ← lookup balance.available_balance currency_id
  some (
      set_balance self exchange_id (record balance {
        available_balance = store balance.available_balance currency_id (f prev_volume);
      }))

unfoldable pub add_balance : BalanceState → ℕ → ℕ → ℤ → Option BalanceState
unfolding update_available ◌+ℤ◌
add_balance self currency_id exchange_id volume =
    update_available self currency_id exchange_id (λ prev_volume. volume +ℤ prev_volume)

unfoldable pub subtract_balance : BalanceState → ℕ → ℕ → ℤ → Option BalanceState
unfolding update_available ◌-ℤ◌
subtract_balance self currency_id exchange_id volume =
    update_available self currency_id exchange_id (λ prev_volume. prev_volume -ℤ volume)

unfoldable pub update_time : BalanceState → ℕ → ℕ → Option BalanceState
update_time self exchange_id timest = do
  balance ← lookup self.balance_per_exchange exchange_id
  some (set_balance self exchange_id (record balance { last_update = timest }))

-- Whether a pair of exchanges was updated too long ago.
unfoldable pub state_expired : BalanceState → ℕ → ℕ → ℕ → ℕ → Option Bool
state_expired self timest src_exchange_id dst_exchange_id threshold = do
  src ← lookup self.balance_per_exchange src_exchange_id
  dst ← lookup self.balance_per_exchange dst_exchange_id
  some (ltb (src.last_update + threshold) timest || ltb (dst.last_update + threshold) timest)

-- `BalanceState.do_we_have_enough`
unfoldable pub have_enough : BalanceState → ℕ → ℕ → ℤ → Option Bool
unfolding get_available_volume_by_currency
have_enough self currency_id exchange_id volume = do
  available ← get_available_volume_by_currency self currency_id exchange_id
  some (not (ltb_ℤ available volume))

module _ (decimals : Decimals) where
  -- `add_balance_by_pair`: the destination is bought for the source. `none` is an exception, and
  -- forgets what was assigned before it.
  unfoldable pub add_balance_by_pair : BalanceState → OrderBook → ℤ → ℤ → Option BalanceState
  unfolding split_currency_pairs Currency.id subtract_balance add_balance update_time
  add_balance_by_pair self order_book volume price = do
    (src, dst) ← split_currency_pairs order_book.pair_id
    paid ←
        subtract_balance self (Currency.id src) order_book.exchange_id
          (decimals.multiply volume price)
    bought ← add_balance paid (Currency.id dst) order_book.exchange_id volume
    update_time bought order_book.exchange_id order_book.timest

  -- `subtract_balance_by_pair`: the destination is sold for the source.
  unfoldable pub subtract_balance_by_pair : BalanceState → OrderBook → ℤ → ℤ → Option BalanceState
  unfolding split_currency_pairs Currency.id subtract_balance add_balance update_time
  subtract_balance_by_pair self order_book volume price = do
    (src, dst) ← split_currency_pairs order_book.pair_id
    sold ← subtract_balance self (Currency.id dst) order_book.exchange_id volume
    paid ←
        add_balance sold (Currency.id src) order_book.exchange_id (decimals.multiply volume price)
    update_time paid order_book.exchange_id order_book.timest

  unfoldable pub do_we_have_enough_by_pair : BalanceState → ℕ → ℕ → ℤ → ℤ → Option Bool
  unfolding split_currency_pairs Currency.id have_enough
  do_we_have_enough_by_pair self pair_id exchange_id volume price = do
    (base, dst) ← split_currency_pairs pair_id
    have_enough self (Currency.id base) exchange_id (decimals.multiply volume price)

  unfoldable pub is_there_disbalance : BalanceState → ℕ → ℕ → ℕ → ℤ → Option Bool
  unfolding get_available_volume_by_currency get_change
  is_there_disbalance self currency_id src_exchange_id dst_exchange_id threshold = do
    balance_1 ← get_available_volume_by_currency self currency_id src_exchange_id
    balance_2 ← get_available_volume_by_currency self currency_id dst_exchange_id
    change ← get_change decimals balance_1 balance_2 false
    some (ltb_ℤ threshold change)
