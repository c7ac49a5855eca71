-- ===== src/Currencies/Binance/PairTo.antt =====
-- From a pair to its name at Binance (binance/currency_utils.py).
use Prim.Native.String.{String}
use crypto_crawler.Prelude.{Option, List, [], ◌∷◌, ℕ}
use crypto_crawler.Enums.CurrencyPair.{CurrencyPair}
use crypto_crawler.Currencies.Dict.{get_by_pair}

unfoldable pub binance_pairs_to : List (CurrencyPair × String)
binance_pairs_to =
    (CurrencyPair.btc_to_dash, "DASHBTC")
    ∷ (CurrencyPair.btc_to_eth, "ETHBTC")
    ∷ (CurrencyPair.btc_to_ltc, "LTCBTC")
    ∷ (CurrencyPair.btc_to_xrp, "XRPBTC")
    ∷ (CurrencyPair.btc_to_bcc, "BCCBTC")
    ∷ (CurrencyPair.btc_to_etc, "ETCBTC")
    ∷ (CurrencyPair.btc_to_omg, "OMGBTC")
    ∷ (CurrencyPair.btc_to_zec, "ZECBTC")
    ∷ (CurrencyPair.btc_to_xmr, "XMRBTC")
    ∷ (CurrencyPair.btc_to_neo, "NEOBTC")
    ∷ (CurrencyPair.btc_to_qtum, "QTUMBTC")
    ∷ (CurrencyPair.btc_to_eos, "EOSBTC")
    ∷ (CurrencyPair.btc_to_iota, "IOTABTC")
    ∷ (CurrencyPair.btc_to_btg, "BTGBTC")
    ∷ (CurrencyPair.btc_to_wtc, "WTCBTC")
    ∷ (CurrencyPair.btc_to_knc, "KNCBTC")
    ∷ (CurrencyPair.btc_to_bat, "BATBTC")
    ∷ (CurrencyPair.btc_to_zrx, "ZRXBTC")
    ∷ (CurrencyPair.btc_to_rdn, "RDNBTC")
    ∷ (CurrencyPair.btc_to_gas, "GASBTC")
    ∷ (CurrencyPair.btc_to_ada, "ADABTC")
    ∷ (CurrencyPair.btc_to_qsp, "QSPBTC")
    ∷ (CurrencyPair.btc_to_rcn, "RCNBTC")
    ∷ (CurrencyPair.btc_to_icx, "ICXBTC")
    ∷ (CurrencyPair.btc_to_wabi, "WABIBTC")
    ∷ (CurrencyPair.btc_to_xlm, "XLMBTC")
    ∷ (CurrencyPair.btc_to_trx, "TRXBTC")
    ∷ (CurrencyPair.btc_to_aion, "AIONBTC")
    ∷ (CurrencyPair.btc_to_ark, "ARKBTC")
    ∷ (CurrencyPair.btc_to_strat, "STRATBTC")
    ∷ (CurrencyPair.btc_to_xvg, "XVGBTC")
    ∷ (CurrencyPair.btc_to_lsk, "LSKBTC")
    ∷ (CurrencyPair.btc_to_eng, "ENGBTC")
    ∷ (CurrencyPair.btc_to_xem, "XEMBTC")
    ∷ (CurrencyPair.btc_to_ont, "ONTBTC")
    ∷ (CurrencyPair.btc_to_hsr, "HSRBTC")
    ∷ (CurrencyPair.btc_to_zil, "ZILBTC")
    ∷ (CurrencyPair.btc_to_ven, "VENBTC")
    ∷ (CurrencyPair.btc_to_elf, "ELFBTC")
    ∷ (CurrencyPair.btc_to_blz, "BLZBTC")
    ∷ (CurrencyPair.btc_to_req, "REQBTC")
    ∷ (CurrencyPair.btc_to_link, "LINKBTC")
    ∷ (CurrencyPair.eth_to_dash, "DASHETH")
    ∷ (CurrencyPair.eth_to_xrp, "XRPETH")
    ∷ (CurrencyPair.eth_to_bcc, "BCCETH")
    ∷ (CurrencyPair.eth_to_etc, "ETCETH")
    ∷ (CurrencyPair.eth_to_omg, "OMGETH")
    ∷ (CurrencyPair.eth_to_zec, "ZECETH")
    ∷ (CurrencyPair.eth_to_xmr, "XMRETH")
    ∷ (CurrencyPair.eth_to_neo, "NEOETH")
    ∷ (CurrencyPair.eth_to_qtum, "QTUMETH")
    ∷ (CurrencyPair.eth_to_eos, "EOSETH")
    ∷ (CurrencyPair.eth_to_iota, "IOTAETH")
    ∷ (CurrencyPair.eth_to_btg, "BTGETH")
    ∷ (CurrencyPair.eth_to_wtc, "WTCETH")
    ∷ (CurrencyPair.eth_to_knc, "KNCETH")
    ∷ (CurrencyPair.eth_to_bat, "BATETH")
    ∷ (CurrencyPair.eth_to_zrx, "ZRXETH")
    ∷ (CurrencyPair.eth_to_rdn, "RDNETH")
    ∷ (CurrencyPair.eth_to_ada, "ADAETH")
    ∷ (CurrencyPair.eth_to_qsp, "QSPETH")
    ∷ (CurrencyPair.eth_to_rcn, "RCNETH")
    ∷ (CurrencyPair.eth_to_icx, "ICXETH")
    ∷ (CurrencyPair.eth_to_wabi, "WABIETH")
    ∷ (CurrencyPair.eth_to_xlm, "XLMETH")
    ∷ (CurrencyPair.eth_to_trx, "TRXETH")
    ∷ (CurrencyPair.eth_to_aion, "AIONETH")
    ∷ (CurrencyPair.eth_to_ark, "ARKETH")
    ∷ (CurrencyPair.eth_to_strat, "STRATETH")
    ∷ (CurrencyPair.eth_to_ltc, "LTCETH")
    ∷ (CurrencyPair.eth_to_xvg, "XVGETH")
    ∷ (CurrencyPair.eth_to_lsk, "LSKETH")
    ∷ (CurrencyPair.eth_to_eng, "ENGETH")
    ∷ (CurrencyPair.eth_to_xem, "XEMETH")
    ∷ (CurrencyPair.eth_to_ont, "ONTETH")
    ∷ (CurrencyPair.eth_to_hsr, "HSRETH")
    ∷ (CurrencyPair.eth_to_zil, "ZILETH")
    ∷ (CurrencyPair.eth_to_ven, "VENETH")
    ∷ (CurrencyPair.eth_to_elf, "ELFETH")
    ∷ (CurrencyPair.eth_to_blz, "BLZETH")
    ∷ (CurrencyPair.eth_to_req, "REQETH")
    ∷ (CurrencyPair.eth_to_link, "LINKETH")
    ∷ (CurrencyPair.usdt_to_btc, "BTCUSDT")
    ∷ (CurrencyPair.usdt_to_bcc, "BCCUSDT")
    ∷ (CurrencyPair.usdt_to_eth, "ETHUSDT")
    ∷ (CurrencyPair.usdt_to_neo, "NEOUSDT")
    ∷ (CurrencyPair.usdt_to_ltc, "LTCUSDT")
    ∷ []

-- `get_currency_pair_to_binance`
unfoldable pub get_currency_pair_to_binance : ℕ → Option String
unfolding binance_pairs_to
get_currency_pair_to_binance pair_id = get_by_pair binance_pairs_to pair_id
