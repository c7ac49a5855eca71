-- ===== src/Currencies/Poloniex/PairFrom.antt =====
-- From a pair name of Poloniex to the pair (poloniex/currency_utils.py).
use Prim.Native.String.{String}
use crypto_crawler.Prelude.{Option, List, [], ◌∷◌}
use crypto_crawler.Enums.CurrencyPair.{CurrencyPair}
use crypto_crawler.Currencies.Dict.{get_by_name}

unfoldable pub poloniex_pairs_from : List (String × CurrencyPair)
poloniex_pairs_from =
    ("BTC_DASH", CurrencyPair.btc_to_dash)
    ∷ ("BTC_ETH", CurrencyPair.btc_to_eth)
    ∷ ("BTC_LTC", CurrencyPair.btc_to_ltc)
    ∷ ("BTC_XRP", CurrencyPair.btc_to_xrp)
    ∷ ("BTC_ETC", CurrencyPair.btc_to_etc)
    ∷ ("BTC_SC", CurrencyPair.btc_to_sc)
    ∷ ("BTC_DGB", CurrencyPair.btc_to_dgb)
    ∷ ("BTC_XEM", CurrencyPair.btc_to_xem)
    ∷ ("BTC_ARDR", CurrencyPair.btc_to_ardr)
    ∷ ("BTC_BCH", CurrencyPair.btc_to_bcc)
    ∷ ("BTC_OMG", CurrencyPair.btc_to_omg)
    ∷ ("BTC_ZEC", CurrencyPair.btc_to_zec)
    ∷ ("BTC_REP", CurrencyPair.btc_to_rep)
    ∷ ("BTC_XMR", CurrencyPair.btc_to_xmr)
    ∷ ("BTC_DOGE", CurrencyPair.btc_to_doge)
    ∷ ("BTC_DCR", CurrencyPair.btc_to_dcr)
    ∷ ("BTC_ZRX", CurrencyPair.btc_to_zrx)
    ∷ ("BTC_GAS", CurrencyPair.btc_to_gas)
    ∷ ("BTC_STRAT", CurrencyPair.btc_to_strat)
    ∷ ("BTC_STR", CurrencyPair.btc_to_xlm)
    ∷ ("BTC_LSK", CurrencyPair.btc_to_lsk)
    ∷ ("ETH_ETC", CurrencyPair.eth_to_etc)
    ∷ ("ETH_BCH", CurrencyPair.eth_to_bcc)
    ∷ ("ETH_OMG", CurrencyPair.eth_to_omg)
    ∷ ("ETH_ZEC", CurrencyPair.eth_to_zec)
    ∷ ("ETH_REP", CurrencyPair.eth_to_rep)
    ∷ ("ETH_ZRX", CurrencyPair.eth_to_zrx)
    ∷ ("ETH_GAS", CurrencyPair.eth_to_gas)
    ∷ ("ETH_LSK", CurrencyPair.eth_to_lsk)
    ∷ ("USDT_DASH", CurrencyPair.usdt_to_dash)
    ∷ ("USDT_BTC", CurrencyPair.usdt_to_btc)
    ∷ ("USDT_ETH", CurrencyPair.usdt_to_eth)
    ∷ ("USDT_LTC", CurrencyPair.usdt_to_ltc)
    ∷ ("USDT_XRP", CurrencyPair.usdt_to_xrp)
    ∷ ("USDT_ETC", CurrencyPair.usdt_to_etc)
    ∷ ("USDT_BCH", CurrencyPair.usdt_to_bcc)
    ∷ ("USDT_ZEC", CurrencyPair.usdt_to_zec)
    ∷ ("USDT_REP", CurrencyPair.usdt_to_rep)
    ∷ ("USDT_XMR", CurrencyPair.usdt_to_xmr)
    ∷ ("USDT_STR", CurrencyPair.usdt_to_xlm)
    ∷ []

-- `get_currency_pair_from_poloniex`
unfoldable pub get_currency_pair_from_poloniex : String → Option CurrencyPair
unfolding poloniex_pairs_from
get_currency_pair_from_poloniex pair_name = get_by_name poloniex_pairs_from pair_name
