-- ===== src/Tests/Currencies.antt =====
-- Examples for the tables of pairs (utils/currency_utils.py and the exchanges' currency_utils.py).
use crypto_crawler.Prelude.{◌≡◌, ◌≢◌, ◌↔◌, refl, true, some, none, arith}
use crypto_crawler.Enums.Currency
use crypto_crawler.Enums.Currency.{Currency}
use crypto_crawler.Enums.CurrencyPair
use crypto_crawler.Enums.CurrencyPair.{CurrencyPair}
use crypto_crawler.Enums.Exchange
use crypto_crawler.Enums.Exchange.{Exchange}
use crypto_crawler.Currencies.Dict.{upper, get_by_name, get_by_pair, get_by_exchange}
use crypto_crawler.Currencies.PairIds.{get_pair_id_by_name}
use crypto_crawler.Currencies.PairNames.{get_pair_name_by_id}
use crypto_crawler.Currencies.Split.{split_currency_pairs}
use crypto_crawler.Currencies.ByExchange.{get_currency_pair_name_by_exchange_id}
use crypto_crawler.Currencies.Bittrex.Currencies.{get_currency_name_for_bittrex}
use crypto_crawler.Currencies.Bittrex.PairTo.{get_currency_pair_to_bittrex}
use crypto_crawler.Currencies.Kraken.PairTo.{get_currency_pair_to_kraken}
use crypto_crawler.Currencies.Binance.PairFrom.{get_currency_pair_from_binance}
use crypto_crawler.Currencies.PairLaws.{
  is_base, usdt_to_omg, get_pair_id_by_name-get_pair_name_by_id,
  get_pair_name_by_id-get_pair_id_by_name, split_currency_pairs-injective,
  split_currency_pairs-proper, split_currency_pairs-fails,
}
use crypto_crawler.Currencies.ExchangeLaws.{
  pair_from, pair_from-get_currency_pair_name_by_exchange_id,
  get_currency_pair_name_by_exchange_id-pair_from,
}
use crypto_crawler.Currencies.Spelling.{
  IsSpelled, base_dash_dst, get_currency_pair_name_by_exchange_id-IsSpelled,
}

get_pair_id_by_name-get_pair_name_by_id_example :
    (k : CurrencyPair) × (get_pair_id_by_name "BTC_TO_DASH" ≡ some k) × (CurrencyPair.id k ≡ 1)
unfolding get_pair_name_by_id get_by_pair
get_pair_id_by_name-get_pair_name_by_id_example = get_pair_id_by_name-get_pair_name_by_id 1 refl

get_pair_name_by_id-get_pair_id_by_name_example :
    get_pair_name_by_id (CurrencyPair.id CurrencyPair.btc_to_eth) ≡ some "BTC_TO_ETH"
unfolding get_pair_id_by_name upper get_by_name
get_pair_name_by_id-get_pair_id_by_name_example =
    get_pair_name_by_id-get_pair_id_by_name "btc_to_eth" refl

split_currency_pairs-injective_example : 1 ≡ CurrencyPair.id CurrencyPair.btc_to_dash
unfolding split_currency_pairs CurrencyPair.id get_by_pair
split_currency_pairs-injective_example =
    split_currency_pairs-injective 1 (CurrencyPair.id CurrencyPair.btc_to_dash) refl refl

split_currency_pairs-proper_example :
    (is_base Currency.bitcoin ≡ true) × (Currency.id Currency.bitcoin ≢ Currency.id Currency.dash)
unfolding split_currency_pairs get_by_pair
split_currency_pairs-proper_example = split_currency_pairs-proper 1 refl

split_currency_pairs-fails_example : (split_currency_pairs 3039 ≡ none) ↔ (3039 ≡ usdt_to_omg)
unfolding get_pair_name_by_id get_by_pair
split_currency_pairs-fails_example = split_currency_pairs-fails 3039 refl

pair_from-get_currency_pair_name_by_exchange_id_example :
    (k : CurrencyPair) × (pair_from Exchange.kraken "XETHXXBT" ≡ some k) × (CurrencyPair.id k ≡ 2)
unfolding get_currency_pair_name_by_exchange_id Exchange.id get_currency_pair_to_kraken get_by_pair
pair_from-get_currency_pair_name_by_exchange_id_example =
    pair_from-get_currency_pair_name_by_exchange_id Exchange.kraken 2 refl

kraken-ne-binance : Exchange.binance ≢ Exchange.kraken
kraken-ne-binance e = cc

get_currency_pair_name_by_exchange_id-pair_from_example :
    get_currency_pair_name_by_exchange_id
      (CurrencyPair.id CurrencyPair.btc_to_eth)
      (Exchange.id Exchange.binance)
    ≡ some (some "ETHBTC")
unfolding pair_from get_currency_pair_from_binance get_by_name
get_currency_pair_name_by_exchange_id-pair_from_example =
    get_currency_pair_name_by_exchange_id-pair_from Exchange.binance "ETHBTC" kraken-ne-binance refl

get_currency_pair_name_by_exchange_id-IsSpelled_example :
    IsSpelled base_dash_dst get_currency_name_for_bittrex 2 "BTC-ETH"
unfolding get_currency_pair_name_by_exchange_id get_by_exchange Exchange.id
    get_currency_pair_to_bittrex get_by_pair
get_currency_pair_name_by_exchange_id-IsSpelled_example =
    get_currency_pair_name_by_exchange_id-IsSpelled Exchange.bittrex 2 (λ e. omega (arith, e)) refl
