-- ===== src/Currencies/PairNames.antt =====
-- `get_pair_name_by_id` (utils/currency_utils.py).
use Prim.Native.String.{String}
use crypto_crawler.Prelude.{Option, List, [], ◌∷◌, ℕ}
use crypto_crawler.Enums.CurrencyPair.{CurrencyPair}
use crypto_crawler.Currencies.Dict.{get_by_pair}

unfoldable pub pair_name_table : List (CurrencyPair × String)
pair_name_table =
    (CurrencyPair.btc_to_dash, "BTC_TO_DASH")
    ∷ (CurrencyPair.btc_to_eth, "BTC_TO_ETH")
    ∷ (CurrencyPair.btc_to_ltc, "BTC_TO_LTC")
    ∷ (CurrencyPair.btc_to_xrp, "BTC_TO_XRP")
    ∷ (CurrencyPair.btc_to_bcc, "BTC_TO_BCC")
    ∷ (CurrencyPair.btc_to_etc, "BTC_TO_ETC")
    ∷ (CurrencyPair.btc_to_sc, "BTC_TO_SC")
    ∷ (CurrencyPair.btc_to_dgb, "BTC_TO_DGB")
    ∷ (CurrencyPair.btc_to_xem, "BTC_TO_XEM")
    ∷ (CurrencyPair.btc_to_ardr, "BTC_TO_ARDR")
    ∷ (CurrencyPair.btc_to_omg, "BTC_TO_OMG")
    ∷ (CurrencyPair.btc_to_zec, "BTC_TO_ZEC")
    ∷ (CurrencyPair.btc_to_rep, "BTC_TO_REP")
    ∷ (CurrencyPair.btc_to_xmr, "BTC_TO_XMR")
    ∷ (CurrencyPair.btc_to_doge, "BTC_TO_DOGE")
    ∷ (CurrencyPair.btc_to_dcr, "BTC_TO_DCR")
    ∷ (CurrencyPair.btc_to_neo, "BTC_TO_NEO")
    ∷ (CurrencyPair.btc_to_qtum, "BTC_TO_QTUM")
    ∷ (CurrencyPair.btc_to_eos, "BTC_TO_EOS")
    ∷ (CurrencyPair.btc_to_iota, "BTC_TO_IOTA")
    ∷ (CurrencyPair.btc_to_btg, "BTC_TO_BTG")
    ∷ (CurrencyPair.btc_to_wtc, "BTC_TO_WTC")
    ∷ (CurrencyPair.btc_to_knc, "BTC_TO_KNC")
    ∷ (CurrencyPair.btc_to_bat, "BTC_TO_BAT")
    ∷ (CurrencyPair.btc_to_zrx, "BTC_TO_ZRX")
    ∷ (CurrencyPair.btc_to_rdn, "BTC_TO_RDN")
    ∷ (CurrencyPair.btc_to_gas, "BTC_TO_GAS")
    ∷ (CurrencyPair.btc_to_ada, "BTC_TO_ADA")
    ∷ (CurrencyPair.btc_to_rcn, "BTC_TO_RCN")
    ∷ (CurrencyPair.btc_to_qsp, "BTC_TO_QSB")
    ∷ (CurrencyPair.btc_to_xby, "BTC_TO_XBY")
    ∷ (CurrencyPair.btc_to_pac, "BTC_TO_PAC")
    ∷ (CurrencyPair.btc_to_rdd, "BTC_TO_RDD")
    ∷ (CurrencyPair.btc_to_icx, "BTC_TO_ICX")
    ∷ (CurrencyPair.btc_to_wabi, "BTC_TO_WABI")
    ∷ (CurrencyPair.btc_to_xlm, "BTC_TO_XLM")
    ∷ (CurrencyPair.btc_to_trx, "BTC_TO_TRX")
    ∷ (CurrencyPair.btc_to_aion, "BTC_TO_AION")
    ∷ (CurrencyPair.btc_to_itc, "BTC_TO_ITC")
    ∷ (CurrencyPair.btc_to_ark, "BTC_TO_ARK")
    ∷ (CurrencyPair.btc_to_strat, "BTC_TO_STRAT")
    ∷ (CurrencyPair.btc_to_lsk, "BTC_TO_LSK")
    ∷ (CurrencyPair.btc_to_eng, "BTC_TO_ENG")
    ∷ (CurrencyPair.btc_to_xvg, "BTC_TO_XVG")
    ∷ (CurrencyPair.btc_to_ont, "BTC_TO_ONT")
    ∷ (CurrencyPair.btc_to_hsr, "BTC_TO_HSR")
    ∷ (CurrencyPair.btc_to_zil, "BTC_TO_ZIL")
    ∷ (CurrencyPair.btc_to_ven, "BTC_TO_VEN")
    ∷ (CurrencyPair.btc_to_elf, "BTC_TO_ELF")
    ∷ (CurrencyPair.btc_to_blz, "BTC_TO_BLZ")
    ∷ (CurrencyPair.btc_to_req, "BTC_OT_REQ")
    ∷ (CurrencyPair.btc_to_link, "BTC_TO_LINK")
    ∷ (CurrencyPair.btc_to_nas, "BTC_TO_NAS")
    ∷ (CurrencyPair.btc_to_ela, "BTC_TO_ELA")
    ∷ (CurrencyPair.eth_to_dash, "ETH_TO_DASH")
    ∷ (CurrencyPair.eth_to_ltc, "ETH_TO_LTC")
    ∷ (CurrencyPair.eth_to_xrp, "ETH_TO_XRP")
    ∷ (CurrencyPair.eth_to_bcc, "ETH_TO_BCC")
    ∷ (CurrencyPair.eth_to_etc, "ETH_TO_ETC")
    ∷ (CurrencyPair.eth_to_sc, "ETH_TO_SC")
    ∷ (CurrencyPair.eth_to_dgb, "ETH_TO_DGB")
    ∷ (CurrencyPair.eth_to_xem, "ETH_TO_XEM")
    ∷ (CurrencyPair.eth_to_omg, "ETH_TO_OMG")
    ∷ (CurrencyPair.eth_to_zec, "ETH_TO_ZEC")
    ∷ (CurrencyPair.eth_to_rep, "ETH_TO_REP")
    ∷ (CurrencyPair.eth_to_xmr, "ETH_TO_XMR")
    ∷ (CurrencyPair.eth_to_neo, "ETH_TO_NEO")
    ∷ (CurrencyPair.eth_to_qtum, "ETH_TO_QTUM")
    ∷ (CurrencyPair.eth_to_eos, "ETH_TO_EOS")
    ∷ (CurrencyPair.eth_to_iota, "ETH_TO_IOTA")
    ∷ (CurrencyPair.eth_to_btg, "ETH_TO_BTG")
    ∷ (CurrencyPair.eth_to_wtc, "ETH_TO_WTC")
    ∷ (CurrencyPair.eth_to_knc, "ETH_TO_KNC")
    ∷ (CurrencyPair.eth_to_bat, "ETH_TO_BAT")
    ∷ (CurrencyPair.eth_to_zrx, "ETH_TO_ZRX")
    ∷ (CurrencyPair.eth_to_rdn, "ETH_TO_RDN")
    ∷ (CurrencyPair.eth_to_gas, "ETH_TO_GAS")
    ∷ (CurrencyPair.eth_to_ada, "ETH_TO_ADA")
    ∷ (CurrencyPair.eth_to_rcn, "ETH_TO_RCN")
    ∷ (CurrencyPair.eth_to_qsp, "ETH_TO_QSB")
    ∷ (CurrencyPair.eth_to_xby, "ETH_TO_XBY")
    ∷ (CurrencyPair.eth_to_pac, "ETH_TO_PAC")
    ∷ (CurrencyPair.eth_to_rdd, "ETH_TO_RDD")
    ∷ (CurrencyPair.eth_to_icx, "ETH_TO_ICX")
    ∷ (CurrencyPair.eth_to_wabi, "ETH_TO_WABI")
    ∷ (CurrencyPair.eth_to_xlm, "ETH_TO_XLM")
    ∷ (CurrencyPair.eth_to_trx, "ETH_TO_TRX")
    ∷ (CurrencyPair.eth_to_aion, "ETH_TO_AION")
    ∷ (CurrencyPair.eth_to_itc, "ETH_TO_ITC")
    ∷ (CurrencyPair.eth_to_ark, "ETH_TO_ARK")
    ∷ (CurrencyPair.eth_to_strat, "ETH_TO_STRAT")
    ∷ (CurrencyPair.eth_to_lsk, "ETH_TO_LSK")
    ∷ (CurrencyPair.eth_to_eng, "ETH_TO_ENG")
    ∷ (CurrencyPair.eth_to_xvg, "ETH_TO_XVG")
    ∷ (CurrencyPair.eth_to_ont, "ETH_TO_ONT")
    ∷ (CurrencyPair.eth_to_hsr, "ETH_TO_HSR")
    ∷ (CurrencyPair.eth_to_zil, "ETH_TO_ZIL")
    ∷ (CurrencyPair.eth_to_ven, "ETH_TO_VEN")
    ∷ (CurrencyPair.eth_to_elf, "ETH_TO_ELF")
    ∷ (CurrencyPair.eth_to_blz, "ETH_TO_BLZ")
    ∷ (CurrencyPair.eth_to_req, "ETH_TO_REQ")
    ∷ (CurrencyPair.eth_to_link, "ETH_TO_LINK")
    ∷ (CurrencyPair.eth_to_nas, "ETH_TO_NAS")
    ∷ (CurrencyPair.eth_to_ela, "ETH_TO_ELA")
    ∷ (CurrencyPair.usd_to_dash, "USD_TO_DASH")
    ∷ (CurrencyPair.usd_to_btc, "USD_TO_BTC")
    ∷ (CurrencyPair.usd_to_ltc, "USD_TO_LTC")
    ∷ (CurrencyPair.usd_to_xrp, "USD_TO_XRP")
    ∷ (CurrencyPair.usd_to_bcc, "USD_TO_BCC")
    ∷ (CurrencyPair.usd_to_etc, "USD_TO_ETC")
    ∷ (CurrencyPair.usd_to_eth, "USD_TO_ETH")
    ∷ (CurrencyPair.usd_to_zec, "USD_TO_ZEC")
    ∷ (CurrencyPair.usd_to_rep, "USD_TO_REP")
    ∷ (CurrencyPair.usd_to_xmr, "USD_TO_XMR")
    ∷ (CurrencyPair.usdt_to_dash, "USDT_TO_DASH")
    ∷ (CurrencyPair.usdt_to_btc, "USDT_TO_BTC")
    ∷ (CurrencyPair.usdt_to_ltc, "USDT_TO_LTC")
    ∷ (CurrencyPair.usdt_to_xrp, "USDT_TO_XRP")
    ∷ (CurrencyPair.usdt_to_bcc, "USDT_TO_BCC")
    ∷ (CurrencyPair.usdt_to_etc, "USDT_TO_ETC")
    ∷ (CurrencyPair.usdt_to_eth, "USDT_TO_ETH")
    ∷ (CurrencyPair.usdt_to_zec, "USDT_TO_ZEC")
    ∷ (CurrencyPair.usdt_to_rep, "USDT_TO_REP")
    ∷ (CurrencyPair.usdt_to_xmr, "USDT_TO_XMR")
    ∷ (CurrencyPair.usdt_to_neo, "USDT_TO_NEO")
    ∷ (CurrencyPair.usdt_to_qtum, "USDT_TO_QTUM")
    ∷ (CurrencyPair.usdt_to_eos, "USDT_TO_EOS")
    ∷ (CurrencyPair.usdt_to_iota, "USDT_TO_IOTA")
    ∷ (CurrencyPair.usdt_to_btg, "USDT_TO_BTG")
    ∷ (CurrencyPair.usdt_to_wtc, "USDT_TO_WTC")
    ∷ (CurrencyPair.usdt_to_knc, "USDT_TO_KNC")
    ∷ (CurrencyPair.usdt_to_bat, "USDT_TO_BAT")
    ∷ (CurrencyPair.usdt_to_zrx, "USDT_TO_ZRX")
    ∷ (CurrencyPair.usdt_to_rdn, "USDT_TO_RDN")
    ∷ (CurrencyPair.usdt_to_gas, "USDT_TO_GAS")
    ∷ (CurrencyPair.usdt_to_ada, "USDT_TO_ADA")
    ∷ (CurrencyPair.usdt_to_rcn, "USDT_TO_RCN")
    ∷ (CurrencyPair.usdt_to_qsp, "USDT_TO_QSB")
    ∷ (CurrencyPair.usdt_to_xby, "USDT_TO_XBY")
    ∷ (CurrencyPair.usdt_to_pac, "USDT_TO_PAC")
    ∷ (CurrencyPair.usdt_to_rdd, "USDT_TO_RDD")
    ∷ (CurrencyPair.usdt_to_icx, "USDT_TO_ICX")
    ∷ (CurrencyPair.usdt_to_wabi, "USDT_TO_WABI")
    ∷ (CurrencyPair.usdt_to_xlm, "USDT_TO_XLM")
    ∷ (CurrencyPair.usdt_to_trx, "USDT_TO_TRX")
    ∷ (CurrencyPair.usdt_to_aion, "USDT_TO_AION")
    ∷ (CurrencyPair.usdt_to_itc, "USDT_TO_ITC")
    ∷ (CurrencyPair.usdt_to_xvg, "USDT_TO_XVG")
    ∷ (CurrencyPair.usdt_to_omg, "USDT_TO_OMG")
    ∷ (CurrencyPair.usdt_to_hsr, "USDT_TO_HSR")
    ∷ (CurrencyPair.usdt_to_zil, "USDT_TO_ZIL")
    ∷ (CurrencyPair.usdt_to_ven, "USDT_TO_VEN")
    ∷ (CurrencyPair.usdt_to_elf, "USDT_TO_ELF")
    ∷ (CurrencyPair.usdt_to_nas, "USDT_TO_NAS")
    ∷ (CurrencyPair.usdt_to_ela, "USDT_TO_ELA")
    ∷ (CurrencyPair.usd_to_usdt, "USD_TO_USDT")
    ∷ []

-- `get_pair_name_by_id`
unfoldable pub get_pair_name_by_id : ℕ → Option String
unfolding pair_name_table
get_pair_name_by_id pair_id = get_by_pair pair_name_table pair_id
