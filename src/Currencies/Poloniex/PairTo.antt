-- ===== src/Currencies/Poloniex/PairTo.antt =====
-- From a pair to its name at Poloniex (poloniex/currency_utils.py).
use Prim.Native.String.{String}
use crypto_crawler.Prelude.{Option, List, [], ◌∷◌, ℕ}
use crypto_crawler.Enums.CurrencyPair.{CurrencyPair}
use crypto_crawler.Currencies.Dict.{get_by_pair}

unfoldable pub poloniex_pairs_to : List (CurrencyPair × String)
poloniex_pairs_to =
    (CurrencyPair.btc_to_dash, "BTC_DASH")
    ∷ (CurrencyPair.btc_to_eth, "BTC_ETH")
    ∷ (CurrencyPair.btc_to_ltc, "BTC_LTC")
    ∷ (CurrencyPair.btc_to_xrp, "BTC_XRP")
    ∷ (CurrencyPair.btc_to_etc, "BTC_ETC")
    ∷ (CurrencyPair.btc_to_sc, "BTC_SC")
    ∷ (CurrencyPair.btc_to_dgb, "BTC_DGB")
    ∷ (CurrencyPair.btc_to_xem, "BTC_XEM")
    ∷ (CurrencyPair.btc_to_ardr, "BTC_ARDR")
    ∷ (CurrencyPair.btc_to_omg, "BTC_OMG")
    ∷ (CurrencyPair.btc_to_bcc, "BTC_BCH")
    ∷ (CurrencyPair.btc_to_zec, "BTC_ZEC")
    ∷ (CurrencyPair.btc_to_rep, "BTC_REP")
    ∷ (CurrencyPair.btc_to_xmr, "BTC_XMR")
    ∷ (CurrencyPair.btc_to_doge, "BTC_DOGE")
    ∷ (CurrencyPair.btc_to_dcr, "BTC_DCR")
    ∷ (CurrencyPair.btc_to_zrx, "BTC_ZRX")
    ∷ (CurrencyPair.btc_to_gas, "BTC_GAS")
    ∷ (CurrencyPair.btc_to_strat, "BTC_STRAT")
    ∷ (CurrencyPair.btc_to_lsk, "BTC_LSK")
    ∷ (CurrencyPair.btc_to_xlm, "BTC_STR")
    ∷ (CurrencyPair.eth_to_etc, "ETH_ETC")
    ∷ (CurrencyPair.eth_to_bcc, "ETH_BCH")
    ∷ (CurrencyPair.eth_to_omg, "ETH_OMG")
    ∷ (CurrencyPair.eth_to_zec, "ETH_ZEC")
    ∷ (CurrencyPair.eth_to_rep, "ETH_REP")
    ∷ (CurrencyPair.eth_to_zrx, "ETH_ZRX")
    ∷ (CurrencyPair.eth_to_gas, "ETH_GAS")
    ∷ (CurrencyPair.eth_to_lsk, "ETH_LSK")
    ∷ (CurrencyPair.usdt_to_dash, "USDT_DASH")
    ∷ (CurrencyPair.usdt_to_btc, "USDT_BTC")
    ∷ (CurrencyPair.usdt_to_eth, "USDT_ETH")
    ∷ (CurrencyPair.usdt_to_ltc, "USDT_LTC")
    ∷ (CurrencyPair.usdt_to_xrp, "USDT_XRP")
    ∷ (CurrencyPair.usdt_to_etc, "USDT_ETC")
    ∷ (CurrencyPair.usdt_to_bcc, "USDT_BCH")
    ∷ (CurrencyPair.usdt_to_zec, "USDT_ZEC")
    ∷ (CurrencyPair.usdt_to_rep, "USDT_REP")
    ∷ (CurrencyPair.usdt_to_xmr, "USDT_XMR")
    ∷ (CurrencyPair.usdt_to_xlm, "USDT_STR")
    ∷ []

-- `get_currency_pair_to_poloniex`
unfoldable pub get_currency_pair_to_poloniex : ℕ → Option String
unfolding poloniex_pairs_to
get_currency_pair_to_poloniex pair_id = get_by_pair poloniex_pairs_to pair_id
