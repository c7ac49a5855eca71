-- ===== src/Tests/Balances.antt =====
-- Examples for balances and decimal places (data/balance_state.py, core/arbitrage_core.py).
use crypto_crawler.Prelude.{ℕ, ℤ, pos, ◌-ℤ◌, ◌+ℤ◌, ◌≡◌, ◌≢◌, refl, none, some, [], ◌∷◌, arith}
use crypto_crawler.Enums.Exchange
use crypto_crawler.Enums.Exchange.{Exchange}
use crypto_crawler.Enums.Currency
use crypto_crawler.Enums.Currency.{Currency}
use crypto_crawler.Enums.CurrencyPair
use crypto_crawler.Enums.CurrencyPair.{CurrencyPair}
use crypto_crawler.Currencies.Dict.{get_by_id, get_by_exchange, get_by_pair}
use crypto_crawler.Currencies.ByExchange.{get_currency_pair_name_by_exchange_id}
use crypto_crawler.Currencies.Binance.PairTo.{get_currency_pair_to_binance}
use crypto_crawler.OrderBook.Book.{OrderBook, name}
use crypto_crawler.Precision.{round_volume}
use crypto_crawler.Precision.Laws.{IsRounded, round_volume-IsRounded}
use crypto_crawler.Balances.{
  lookup, store, BalanceState, add_balance_by_pair, subtract_balance_by_pair,
  get_available_volume_by_currency,
}
use crypto_crawler.Balances.Laws.{IsTrade, add_balance_by_pair-IsTrade}
use crypto_crawler.Balances.RoundTrip.{subtract_balance_by_pair-add_balance_by_pair}
use crypto_crawler.Tests.Cents.{cents}

ne_omg : 17 ≢ CurrencyPair.id CurrencyPair.usdt_to_omg
unfolding CurrencyPair.id
ne_omg e = omega (arith, e)

-- BTC_TO_NEO at Binance.
round_volume-IsRounded_example :
    IsRounded cents (pos 150) (round_volume cents (Exchange.id Exchange.binance) (pos 150) 17)
unfolding get_currency_pair_name_by_exchange_id get_by_exchange Exchange.id
    get_currency_pair_to_binance get_by_pair
round_volume-IsRounded_example =
    round_volume-IsRounded cents Exchange.binance 17 (pos 150) {name = "NEOBTC"} refl ne_omg

-- Binance has Bitcoin and NEO.
abbrev state_at : ℕ → ℤ → ℤ → BalanceState
state_at t btc neo = record {
  balance_per_exchange =
      (
        4,
        record {
          exchange_id = 4;
          last_update = t;
          available_balance = (0, btc) ∷ (17, neo) ∷ [];
          total_balance = [];
        },
      )
      ∷ [];
}

abbrev book : OrderBook
book = record {
  pair_id = 17;
  pair_name = name "BTC_TO_NEO";
  timest = 5;
  ask = [];
  bid = [];
  exchange_id = 4;
  exchange = name "BINANCE";
  sequence_id = none;
}

-- 1.50 NEO at the price 2.
add_balance_by_pair-IsTrade_example :
    IsTrade
      (state_at 0 (pos 700) (pos 400))
      (state_at 5 (pos 400) (pos 550))
      4
      (Currency.id Currency.bitcoin)
      (λ a. a -ℤ pos 300)
      (Currency.id Currency.neo)
      (λ b. pos 150 +ℤ b)
unfolding get_by_pair add_balance_by_pair cents Currency.id lookup store get_by_id ◌+ℤ◌ ◌-ℤ◌
add_balance_by_pair-IsTrade_example =
    add_balance_by_pair-IsTrade cents (state_at 0 (pos 700) (pos 400)) book (pos 150) (pos 200)
      {s' = state_at 5 (pos 400) (pos 550)} {src = Currency.bitcoin} {dst = Currency.neo} refl refl

subtract_balance_by_pair-add_balance_by_pair_example :
    (s2 : BalanceState) × (subtract_balance_by_pair cents
        (state_at 5 (pos 400) (pos 550))
        book
        (pos 150)
        (pos 200)
      ≡ some s2)
    × ((c e : ℕ)
        → get_available_volume_by_currency s2 c e
          ≡ get_available_volume_by_currency (state_at 0 (pos 700) (pos 400)) c e)
unfolding get_by_pair add_balance_by_pair cents Currency.id lookup store get_by_id ◌+ℤ◌ ◌-ℤ◌
subtract_balance_by_pair-add_balance_by_pair_example =
    subtract_balance_by_pair-add_balance_by_pair cents (state_at 0 (pos 700) (pos 400)) book
      (pos 150) (pos 200) {s1 = state_at 5 (pos 400) (pos 550)} refl
