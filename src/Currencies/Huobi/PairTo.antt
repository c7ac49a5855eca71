-- ===== src/Currencies/Huobi/PairTo.antt =====
-- From a pair to its name at Huobi (huobi/currency_utils.py).
use Prim.Native.String.{String}
use crypto_crawler.Prelude.{Option, List, [], ◌∷◌, ℕ}
use crypto_crawler.Enums.CurrencyPair.{CurrencyPair}
use crypto_crawler.Currencies.Dict.{get_by_pair}

unfoldable pub huobi_pairs_to : List (CurrencyPair × String)
huobi_pairs_to =
    (CurrencyPair.btc_to_dash, "dashbtc")
    ∷ (CurrencyPair.btc_to_eth, "ethbtc")
    ∷ (CurrencyPair.btc_to_ltc, "ltcbtc")
    ∷ (CurrencyPair.btc_to_xrp, "xrpbtc")
    ∷ (CurrencyPair.btc_to_bcc, "bchbtc")
    ∷ (CurrencyPair.btc_to_etc, "etcbtc")
    ∷ (CurrencyPair.btc_to_xem, "xembtc")
    ∷ (CurrencyPair.btc_to_omg, "omgbtc")
    ∷ (CurrencyPair.btc_to_zec, "zecbtc")
    ∷ (CurrencyPair.btc_to_neo, "neobtc")
    ∷ (CurrencyPair.btc_to_qtum, "qtumbtc")
    ∷ (CurrencyPair.btc_to_btg, "btgbtc")
    ∷ (CurrencyPair.btc_to_bat, "batbtc")
    ∷ (CurrencyPair.btc_to_rcn, "rcnbtc")
    ∷ (CurrencyPair.btc_to_zrx, "zrxbtc")
    ∷ (CurrencyPair.btc_to_lsk, "lskbtc")
    ∷ (CurrencyPair.btc_to_eng, "engbtc")
    ∷ (CurrencyPair.btc_to_trx, "trxbtc")
    ∷ (CurrencyPair.btc_to_eos, "eosbtc")
    ∷ (CurrencyPair.btc_to_icx, "icxbtc")
    ∷ (CurrencyPair.btc_to_rdn, "rdnbtc")
    ∷ (CurrencyPair.btc_to_qsp, "qspbtc")
    ∷ (CurrencyPair.btc_to_ont, "ontbtc")
    ∷ (CurrencyPair.btc_to_hsr, "hsrbtc")
    ∷ (CurrencyPair.btc_to_zil, "zilbtc")
    ∷ (CurrencyPair.btc_to_ven, "venbtc")
    ∷ (CurrencyPair.btc_to_elf, "elfbtc")
    ∷ (CurrencyPair.btc_to_blz, "blzbtc")
    ∷ (CurrencyPair.btc_to_req, "reqbtc")
    ∷ (CurrencyPair.btc_to_link, "linkbtc")
    ∷ (CurrencyPair.btc_to_nas, "nasbtc")
    ∷ (CurrencyPair.btc_to_ela, "elabtc")
    ∷ (CurrencyPair.btc_to_ada, "adabtc")
    ∷ (CurrencyPair.eth_to_omg, "omgeth")
    ∷ (CurrencyPair.eth_to_qtum, "qtumeth")
    ∷ (CurrencyPair.eth_to_bat, "bateth")
    ∷ (CurrencyPair.eth_to_rcn, "rcneth")
    ∷ (CurrencyPair.eth_to_eng, "engeth")
    ∷ (CurrencyPair.eth_to_trx, "trxeth")
    ∷ (CurrencyPair.eth_to_eos, "eoseth")
    ∷ (CurrencyPair.eth_to_icx, "icxeth")
    ∷ (CurrencyPair.eth_to_rdn, "rdneth")
    ∷ (CurrencyPair.eth_to_qsp, "qspeth")
    ∷ (CurrencyPair.eth_to_ont, "onteth")
    ∷ (CurrencyPair.eth_to_hsr, "hsreth")
    ∷ (CurrencyPair.eth_to_zil, "zileth")
    ∷ (CurrencyPair.eth_to_ven, "veneth")
    ∷ (CurrencyPair.eth_to_elf, "elfeth")
    ∷ (CurrencyPair.eth_to_blz, "blzeth")
    ∷ (CurrencyPair.eth_to_req, "reqeth")
    ∷ (CurrencyPair.eth_to_link, "linketh")
    ∷ (CurrencyPair.eth_to_lsk, "lsketh")
    ∷ (CurrencyPair.eth_to_nas, "naseth")
    ∷ (CurrencyPair.eth_to_ela, "elaeth")
    ∷ (CurrencyPair.eth_to_ada, "adaeth")
    ∷ (CurrencyPair.usdt_to_dash, "dashusdt")
    ∷ (CurrencyPair.usdt_to_btc, "btcusdt")
    ∷ (CurrencyPair.usdt_to_ltc, "ltcusdt")
    ∷ (CurrencyPair.usdt_to_xrp, "xrpusdt")
    ∷ (CurrencyPair.usdt_to_bcc, "bchusdt")
    ∷ (CurrencyPair.usdt_to_etc, "etcusdt")
    ∷ (CurrencyPair.usdt_to_omg, "omgusdt")
    ∷ (CurrencyPair.usdt_to_qtum, "qtumusdt")
    ∷ (CurrencyPair.usdt_to_eth, "ethusdt")
    ∷ (CurrencyPair.usdt_to_zec, "zecusdt")
    ∷ (CurrencyPair.usdt_to_neo, "neousdt")
    ∷ (CurrencyPair.usdt_to_eos, "eosusdt")
    ∷ (CurrencyPair.usdt_to_hsr, "hsrusdt")
    ∷ (CurrencyPair.usdt_to_zil, "zilusdt")
    ∷ (CurrencyPair.usdt_to_ven, "venusdt")
    ∷ (CurrencyPair.usdt_to_elf, "elfusdt")
    ∷ (CurrencyPair.usdt_to_nas, "nasusdt")
    ∷ (CurrencyPair.usdt_to_ela, "elausdt")
    ∷ (CurrencyPair.usdt_to_ada, "adausdt")
    ∷ []

-- `get_currency_pair_to_huobi`
unfoldable pub get_currency_pair_to_huobi : ℕ → Option String
unfolding huobi_pairs_to
get_currency_pair_to_huobi pair_id = get_by_pair huobi_pairs_to pair_id
