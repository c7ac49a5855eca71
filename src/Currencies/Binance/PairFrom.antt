-- ===== src/Currencies/Binance/PairFrom.antt =====
-- From a pair name of Binance to the pair (binance/currency_utils.py).
use Prim.Native.String.{String}
use crypto_crawler.Prelude.{Option, List, [], ◌∷◌}
use crypto_crawler.Enums.CurrencyPair.{CurrencyPair}
use crypto_crawler.Currencies.Dict.{get_by_name}

unfoldable pub binance_pairs_from : List (String × CurrencyPair)
binance_pairs_from =
    ("DASHBTC", CurrencyPair.btc_to_dash)
    ∷ ("ETHBTC", CurrencyPair.btc_to_eth)
    ∷ ("LTCBTC", CurrencyPair.btc_to_ltc)
    ∷ ("XRPBTC", CurrencyPair.btc_to_xrp)
    ∷ ("BCCBTC", CurrencyPair.btc_to_bcc)
    ∷ ("ETCBTC", CurrencyPair.btc_to_etc)
    ∷ ("OMGBTC", CurrencyPair.btc_to_omg)
    ∷ ("ZECBTC", CurrencyPair.btc_to_zec)
    ∷ ("XMRBTC", CurrencyPair.btc_to_xmr)
    ∷ ("NEOBTC", CurrencyPair.btc_to_neo)
    ∷ ("QTUMBTC", CurrencyPair.btc_to_qtum)
    ∷ ("EOSBTC", CurrencyPair.btc_to_eos)
    ∷ ("IOTABTC", CurrencyPair.btc_to_iota)
    ∷ ("BTGBTC", CurrencyPair.btc_to_btg)
    ∷ ("WTCBTC", CurrencyPair.btc_to_wtc)
    ∷ ("KNCBTC", CurrencyPair.btc_to_knc)
    ∷ ("BATBTC", CurrencyPair.btc_to_bat)
    ∷ ("ZRXBTC", CurrencyPair.btc_to_zrx)
    ∷ ("RDNBTC", CurrencyPair.btc_to_rdn)
    ∷ ("GASBTC", CurrencyPair.btc_to_gas)
    ∷ ("ADABTC", CurrencyPair.btc_to_ada)
    ∷ ("QSPBTC", CurrencyPair.btc_to_qsp)
    ∷ ("RCNBTC", CurrencyPair.btc_to_rcn)
    ∷ ("ICXBTC", CurrencyPair.btc_to_icx)
    ∷ ("WABIBTC", CurrencyPair.btc_to_wabi)
    ∷ ("XLMBTC", CurrencyPair.btc_to_xlm)
    ∷ ("TRXBTC", CurrencyPair.btc_to_trx)
    ∷ ("AIONBTC", CurrencyPair.btc_to_aion)
    ∷ ("ARKBTC", CurrencyPair.btc_to_ark)
    ∷ ("STRATBTC", CurrencyPair.btc_to_strat)
    ∷ ("XVGBTC", CurrencyPair.btc_to_xvg)
    ∷ ("LSKBTC", CurrencyPair.btc_to_lsk)
    ∷ ("ENGBTC", CurrencyPair.btc_to_eng)
    ∷ ("XEMBTC", CurrencyPair.btc_to_xem)
    ∷ ("ONTBTC", CurrencyPair.btc_to_ont)
    ∷ ("HSRBTC", CurrencyPair.btc_to_hsr)
    ∷ ("ZILBTC", CurrencyPair.btc_to_zil)
    ∷ ("VENBTC", CurrencyPair.btc_to_ven)
    ∷ ("ELFBTC", CurrencyPair.btc_to_elf)
    ∷ ("BLZBTC", CurrencyPair.btc_to_blz)
    ∷ ("REQBTC", CurrencyPair.btc_to_req)
    ∷ ("LINKBTC", CurrencyPair.btc_to_link)
    ∷ ("DASHETH", CurrencyPair.eth_to_dash)
    ∷ ("XRPETH", CurrencyPair.eth_to_xrp)
    ∷ ("BCCETH", CurrencyPair.eth_to_bcc)
    ∷ ("ETCETH", CurrencyPair.eth_to_etc)
    ∷ ("OMGETH", CurrencyPair.eth_to_omg)
    ∷ ("ZECETH", CurrencyPair.eth_to_zec)
    ∷ ("XMRETH", CurrencyPair.eth_to_xmr)
    ∷ ("NEOETH", CurrencyPair.eth_to_neo)
    ∷ ("QTUMETH", CurrencyPair.eth_to_qtum)
    ∷ ("EOSETH", CurrencyPair.eth_to_eos)
    ∷ ("IOTAETH", CurrencyPair.eth_to_iota)
    ∷ ("BTGETH", CurrencyPair.eth_to_btg)
    ∷ ("WTCETH", CurrencyPair.eth_to_wtc)
    ∷ ("KNCETH", CurrencyPair.eth_to_knc)
    ∷ ("BATETH", CurrencyPair.eth_to_bat)
    ∷ ("ZRXETH", CurrencyPair.eth_to_zrx)
    ∷ ("RDNETH", CurrencyPair.eth_to_rdn)
    ∷ ("ADAETH", CurrencyPair.eth_to_ada)
    ∷ ("QSPETH", CurrencyPair.eth_to_qsp)
    ∷ ("RCNETH", CurrencyPair.eth_to_rcn)
    ∷ ("ICXETH", CurrencyPair.eth_to_icx)
    ∷ ("WABIETH", CurrencyPair.eth_to_wabi)
    ∷ ("XLMETH", CurrencyPair.eth_to_xlm)
    ∷ ("TRXETH", CurrencyPair.eth_to_trx)
    ∷ ("AIONETH", CurrencyPair.eth_to_aion)
    ∷ ("ARKETH", CurrencyPair.eth_to_ark)
    ∷ ("STRATETH", CurrencyPair.eth_to_strat)
    ∷ ("LTCETH", CurrencyPair.eth_to_ltc)
    ∷ ("XVGETH", CurrencyPair.eth_to_xvg)
    ∷ ("LSKETH", CurrencyPair.eth_to_lsk)
    ∷ ("ENGETH", CurrencyPair.eth_to_eng)
    ∷ ("XEMETH", CurrencyPair.eth_to_xem)
    ∷ ("ONTETH", CurrencyPair.eth_to_ont)
    ∷ ("HSRETH", CurrencyPair.eth_to_hsr)
    ∷ ("ZILETH", CurrencyPair.eth_to_zil)
    ∷ ("VENETH", CurrencyPair.eth_to_ven)
    ∷ ("ELFETH", CurrencyPair.eth_to_elf)
    ∷ ("BLZETH", CurrencyPair.eth_to_blz)
    ∷ ("REQETH", CurrencyPair.eth_to_req)
    ∷ ("LINKETH", CurrencyPair.eth_to_link)
    ∷ ("BTCUSDT", CurrencyPair.usdt_to_btc)
    ∷ ("BCCUSDT", CurrencyPair.usdt_to_bcc)
    ∷ ("ETHUSDT", CurrencyPair.usdt_to_eth)
    ∷ ("NEOUSDT", CurrencyPair.usdt_to_neo)
    ∷ ("LTCUSDT", CurrencyPair.usdt_to_ltc)
    ∷ []

-- `get_currency_pair_from_binance`
unfoldable pub get_currency_pair_from_binance : String → Option CurrencyPair
unfolding binance_pairs_from
get_currency_pair_from_binance pair_name = get_by_name binance_pairs_from pair_name
