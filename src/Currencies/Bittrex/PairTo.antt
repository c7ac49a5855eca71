-- ===== src/Currencies/Bittrex/PairTo.antt =====
-- From a pair to its name at Bittrex (bittrex/currency_utils.py).
use Prim.Native.String.{String}
use crypto_crawler.Prelude.{Option, List, [], ◌∷◌, ℕ}
use crypto_crawler.Enums.CurrencyPair.{CurrencyPair}
use crypto_crawler.Currencies.Dict.{get_by_pair}

unfoldable pub bittrex_pairs_to : List (CurrencyPair × String)
bittrex_pairs_to =
    (CurrencyPair.btc_to_dash, "BTC-DASH")
    ∷ (CurrencyPair.btc_to_eth, "BTC-ETH")
    ∷ (CurrencyPair.btc_to_ltc, "BTC-LTC")
    ∷ (CurrencyPair.btc_to_xrp, "BTC-XRP")
    ∷ (CurrencyPair.btc_to_bcc, "BTC-BCC")
    ∷ (CurrencyPair.btc_to_etc, "BTC-ETC")
    ∷ (CurrencyPair.btc_to_sc, "BTC-SC")
    ∷ (CurrencyPair.btc_to_dgb, "BTC-DGB")
    ∷ (CurrencyPair.btc_to_xem, "BTC-XEM")
    ∷ (CurrencyPair.btc_to_ardr, "BTC-ARDR")
    ∷ (CurrencyPair.btc_to_omg, "BTC-OMG")
    ∷ (CurrencyPair.btc_to_zec, "BTC-ZEC")
    ∷ (CurrencyPair.btc_to_rep, "BTC-REP")
    ∷ (CurrencyPair.btc_to_xmr, "BTC-XMR")
    ∷ (CurrencyPair.btc_to_doge, "BTC-DOGE")
    ∷ (CurrencyPair.btc_to_dcr, "BTC-DCR")
    ∷ (CurrencyPair.btc_to_neo, "BTC-NEO")
    ∷ (CurrencyPair.btc_to_qtum, "BTC-QTUM")
    ∷ (CurrencyPair.btc_to_btg, "BTC-BTG")
    ∷ (CurrencyPair.btc_to_bat, "BTC-BAT")
    ∷ (CurrencyPair.btc_to_ada, "BTC-ADA")
    ∷ (CurrencyPair.btc_to_rcn, "BTC-RCN")
    ∷ (CurrencyPair.btc_to_rdd, "BTC-RDD")
    ∷ (CurrencyPair.btc_to_xlm, "BTC-XLM")
    ∷ (CurrencyPair.btc_to_ark, "BTC-ARK")
    ∷ (CurrencyPair.btc_to_strat, "BTC-STRAT")
    ∷ (CurrencyPair.btc_to_zrx, "BTC-ZRX")
    ∷ (CurrencyPair.btc_to_xvg, "BTC-XVG")
    ∷ (CurrencyPair.btc_to_lsk, "BTC-LSK")
    ∷ (CurrencyPair.btc_to_eng, "BTC-ENG")
    ∷ (CurrencyPair.btc_to_trx, "BTC-TRX")
    ∷ (CurrencyPair.eth_to_dash, "ETH-DASH")
    ∷ (CurrencyPair.eth_to_ltc, "ETH-LTC")
    ∷ (CurrencyPair.eth_to_xrp, "ETH-XRP")
    ∷ (CurrencyPair.eth_to_bcc, "ETH-BCC")
    ∷ (CurrencyPair.eth_to_etc, "ETH-ETC")
    ∷ (CurrencyPair.eth_to_sc, "ETH-SC")
    ∷ (CurrencyPair.eth_to_dgb, "ETH-DGB")
    ∷ (CurrencyPair.eth_to_xem, "ETH-XEM")
    ∷ (CurrencyPair.eth_to_omg, "ETH-OMG")
    ∷ (CurrencyPair.eth_to_zec, "ETH-ZEC")
    ∷ (CurrencyPair.eth_to_rep, "ETH-REP")
    ∷ (CurrencyPair.eth_to_xmr, "ETH-XMR")
    ∷ (CurrencyPair.eth_to_neo, "ETH-NEO")
    ∷ (CurrencyPair.eth_to_qtum, "ETH-QTUM")
    ∷ (CurrencyPair.eth_to_btg, "ETH-BTG")
    ∷ (CurrencyPair.eth_to_bat, "ETH-BAT")
    ∷ (CurrencyPair.eth_to_ada, "ETH-ADA")
    ∷ (CurrencyPair.eth_to_rcn, "ETH-RCN")
    ∷ (CurrencyPair.eth_to_xlm, "ETH-XLM")
    ∷ (CurrencyPair.eth_to_strat, "ETH-STRAT")
    ∷ (CurrencyPair.eth_to_zrx, "ETH-ZRX")
    ∷ (CurrencyPair.eth_to_eng, "ETH-ENG")
    ∷ (CurrencyPair.eth_to_trx, "ETH-TRX")
    ∷ (CurrencyPair.usdt_to_dash, "USDT-DASH")
    ∷ (CurrencyPair.usdt_to_btc, "USDT-BTC")
    ∷ (CurrencyPair.usdt_to_ltc, "USDT-LTC")
    ∷ (CurrencyPair.usdt_to_xrp, "USDT-XRP")
    ∷ (CurrencyPair.usdt_to_bcc, "USDT-BCC")
    ∷ (CurrencyPair.usdt_to_etc, "USDT-ETC")
    ∷ (CurrencyPair.usdt_to_eth, "USDT-ETH")
    ∷ (CurrencyPair.usdt_to_zec, "USDT-ZEC")
    ∷ (CurrencyPair.usdt_to_xmr, "USDT-XMR")
    ∷ (CurrencyPair.usdt_to_neo, "USDT-NEO")
    ∷ (CurrencyPair.usdt_to_btg, "USDT-BTG")
    ∷ (CurrencyPair.usdt_to_ada, "USDT-ADA")
    ∷ (CurrencyPair.usdt_to_xvg, "USDT-XVG")
    ∷ []

-- `get_currency_pair_to_bittrex`
unfoldable pub get_currency_pair_to_bittrex : ℕ → Option String
unfolding bittrex_pairs_to
get_currency_pair_to_bittrex pair_id = get_by_pair bittrex_pairs_to pair_id
