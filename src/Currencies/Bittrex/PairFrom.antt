-- ===== src/Currencies/Bittrex/PairFrom.antt =====
-- From a pair name of Bittrex to the pair (bittrex/currency_utils.py).
use Prim.Native.String.{String}
use crypto_crawler.Prelude.{Option, List, [], ◌∷◌}
use crypto_crawler.Enums.CurrencyPair.{CurrencyPair}
use crypto_crawler.Currencies.Dict.{get_by_name}

unfoldable pub bittrex_pairs_from : List (String × CurrencyPair)
bittrex_pairs_from =
    ("BTC-DASH", CurrencyPair.btc_to_dash)
    ∷ ("BTC-ETH", CurrencyPair.btc_to_eth)
    ∷ ("BTC-LTC", CurrencyPair.btc_to_ltc)
    ∷ ("BTC-XRP", CurrencyPair.btc_to_xrp)
    ∷ ("BTC-BCC", CurrencyPair.btc_to_bcc)
    ∷ ("BTC-ETC", CurrencyPair.btc_to_etc)
    ∷ ("BTC-SC", CurrencyPair.btc_to_sc)
    ∷ ("BTC-DGB", CurrencyPair.btc_to_dgb)
    ∷ ("BTC-XEM", CurrencyPair.btc_to_xem)
    ∷ ("BTC-ARDR", CurrencyPair.btc_to_ardr)
    ∷ ("BTC-OMG", CurrencyPair.btc_to_omg)
    ∷ ("BTC-ZEC", CurrencyPair.btc_to_zec)
    ∷ ("BTC-REP", CurrencyPair.btc_to_rep)
    ∷ ("BTC-XMR", CurrencyPair.btc_to_xmr)
    ∷ ("BTC-DOGE", CurrencyPair.btc_to_doge)
    ∷ ("BTC-DCR", CurrencyPair.btc_to_dcr)
    ∷ ("BTC-NEO", CurrencyPair.btc_to_neo)
    ∷ ("BTC-QTUM", CurrencyPair.btc_to_qtum)
    ∷ ("BTC-BTG", CurrencyPair.btc_to_btg)
    ∷ ("BTC-BAT", CurrencyPair.btc_to_bat)
    ∷ ("BTC-ADA", CurrencyPair.btc_to_ada)
    ∷ ("BTC-RCN", CurrencyPair.btc_to_rcn)
    ∷ ("BTC-RDD", CurrencyPair.btc_to_rdd)
    ∷ ("BTC-XLM", CurrencyPair.btc_to_xlm)
    ∷ ("BTC-ARK", CurrencyPair.btc_to_ark)
    ∷ ("BTC-STRAT", CurrencyPair.btc_to_strat)
    ∷ ("BTC-XVG", CurrencyPair.btc_to_xvg)
    ∷ ("BTC-LSK", CurrencyPair.btc_to_lsk)
    ∷ ("BTC-ENG", CurrencyPair.btc_to_eng)
    ∷ ("BTC-ZRX", CurrencyPair.btc_to_zrx)
    ∷ ("BTC-TRX", CurrencyPair.btc_to_trx)
    ∷ ("ETH-DASH", CurrencyPair.eth_to_dash)
    ∷ ("ETH-LTC", CurrencyPair.eth_to_ltc)
    ∷ ("ETH-XRP", CurrencyPair.eth_to_xrp)
    ∷ ("ETH-BCC", CurrencyPair.eth_to_bcc)
    ∷ ("ETH-ETC", CurrencyPair.eth_to_etc)
    ∷ ("ETH-SC", CurrencyPair.eth_to_sc)
    ∷ ("ETH-DGB", CurrencyPair.eth_to_dgb)
    ∷ ("ETH-XEM", CurrencyPair.eth_to_xem)
    ∷ ("ETH-OMG", CurrencyPair.eth_to_omg)
    ∷ ("ETH-ZEC", CurrencyPair.eth_to_zec)
    ∷ ("ETH-REP", CurrencyPair.eth_to_rep)
    ∷ ("ETH-XMR", CurrencyPair.eth_to_xmr)
    ∷ ("ETH-NEO", CurrencyPair.eth_to_neo)
    ∷ ("ETH-QTUM", CurrencyPair.eth_to_qtum)
    ∷ ("ETH-BTG", CurrencyPair.eth_to_btg)
    ∷ ("ETH-BAT", CurrencyPair.eth_to_bat)
    ∷ ("ETH-ADA", CurrencyPair.eth_to_ada)
    ∷ ("ETH-RCN", CurrencyPair.eth_to_rcn)
    ∷ ("ETH-XLM", CurrencyPair.eth_to_xlm)
    ∷ ("ETH-STRAT", CurrencyPair.eth_to_strat)
    ∷ ("ETH-ZRX", CurrencyPair.eth_to_zrx)
    ∷ ("ETH-ENG", CurrencyPair.eth_to_eng)
    ∷ ("ETH-TRX", CurrencyPair.eth_to_trx)
    ∷ ("USDT-DASH", CurrencyPair.usdt_to_dash)
    ∷ ("USDT-BTC", CurrencyPair.usdt_to_btc)
    ∷ ("USDT-LTC", CurrencyPair.usdt_to_ltc)
    ∷ ("USDT-XRP", CurrencyPair.usdt_to_xrp)
    ∷ ("USDT-BCC", CurrencyPair.usdt_to_bcc)
    ∷ ("USDT-ETC", CurrencyPair.usdt_to_etc)
    ∷ ("USDT-ETH", CurrencyPair.usdt_to_eth)
    ∷ ("USDT-ZEC", CurrencyPair.usdt_to_zec)
    ∷ ("USDT-XMR", CurrencyPair.usdt_to_xmr)
    ∷ ("USDT-NEO", CurrencyPair.usdt_to_neo)
    ∷ ("USDT-BTG", CurrencyPair.usdt_to_btg)
    ∷ ("USDT-ADA", CurrencyPair.usdt_to_ada)
    ∷ ("USDT-XVG", CurrencyPair.usdt_to_xvg)
    ∷ []

-- `get_currency_pair_from_bittrex`
unfoldable pub get_currency_pair_from_bittrex : String → Option CurrencyPair
unfolding bittrex_pairs_from
get_currency_pair_from_bittrex pair_name = get_by_name bittrex_pairs_from pair_name
