-- ===== src/Currencies/Huobi/PairFrom.antt =====
-- From a pair name of Huobi to the pair (huobi/currency_utils.py).
use Prim.Native.String.{String}
use crypto_crawler.Prelude.{Option, List, [], ◌∷◌}
use crypto_crawler.Enums.CurrencyPair.{CurrencyPair}
use crypto_crawler.Currencies.Dict.{get_by_name}

unfoldable pub huobi_pairs_from : List (String × CurrencyPair)
huobi_pairs_from =
    ("dashbtc", CurrencyPair.btc_to_dash)
    ∷ ("ethbtc", CurrencyPair.btc_to_eth)
    ∷ ("ltcbtc", CurrencyPair.btc_to_ltc)
    ∷ ("xrpbtc", CurrencyPair.btc_to_xrp)
    ∷ ("bchbtc", CurrencyPair.btc_to_bcc)
    ∷ ("etcbtc", CurrencyPair.btc_to_etc)
    ∷ ("xembtc", CurrencyPair.btc_to_xem)
    ∷ ("omgbtc", CurrencyPair.btc_to_omg)
    ∷ ("zecbtc", CurrencyPair.btc_to_zec)
    ∷ ("neobtc", CurrencyPair.btc_to_neo)
    ∷ ("qtumbtc", CurrencyPair.btc_to_qtum)
    ∷ ("btgbtc", CurrencyPair.btc_to_btg)
    ∷ ("batbtc", CurrencyPair.btc_to_bat)
    ∷ ("rcnbtc", CurrencyPair.btc_to_rcn)
    ∷ ("zrxbtc", CurrencyPair.btc_to_zrx)
    ∷ ("lskbtc", CurrencyPair.btc_to_lsk)
    ∷ ("engbtc", CurrencyPair.btc_to_eng)
    ∷ ("trxbtc", CurrencyPair.btc_to_trx)
    ∷ ("eosbtc", CurrencyPair.btc_to_eos)
    ∷ ("icxbtc", CurrencyPair.btc_to_icx)
    ∷ ("rdnbtc", CurrencyPair.btc_to_rdn)
    ∷ ("qspbtc", CurrencyPair.btc_to_qsp)
    ∷ ("ontbtc", CurrencyPair.btc_to_ont)
    ∷ ("hsrbtc", CurrencyPair.btc_to_hsr)
    ∷ ("zilbtc", CurrencyPair.btc_to_zil)
    ∷ ("venbtc", CurrencyPair.btc_to_ven)
    ∷ ("elfbtc", CurrencyPair.btc_to_elf)
    ∷ ("blzbtc", CurrencyPair.btc_to_blz)
    ∷ ("reqbtc", CurrencyPair.btc_to_req)
    ∷ ("linkbtc", CurrencyPair.btc_to_link)
    ∷ ("nasbtc", CurrencyPair.btc_to_nas)
    ∷ ("elabtc", CurrencyPair.btc_to_ela)
    ∷ ("adabtc", CurrencyPair.btc_to_ada)
    ∷ ("omgeth", CurrencyPair.eth_to_omg)
    ∷ ("qtumeth", CurrencyPair.eth_to_qtum)
    ∷ ("bateth", CurrencyPair.eth_to_bat)
    ∷ ("rcneth", CurrencyPair.eth_to_rcn)
    ∷ ("engeth", CurrencyPair.eth_to_eng)
    ∷ ("trxeth", CurrencyPair.eth_to_trx)
    ∷ ("eoseth", CurrencyPair.eth_to_eos)
    ∷ ("icxeth", CurrencyPair.eth_to_icx)
    ∷ ("rdneth", CurrencyPair.eth_to_rdn)
    ∷ ("qspeth", CurrencyPair.eth_to_qsp)
    ∷ ("onteth", CurrencyPair.eth_to_ont)
    ∷ ("hsreth", CurrencyPair.eth_to_hsr)
    ∷ ("zileth", CurrencyPair.eth_to_zil)
    ∷ ("veneth", CurrencyPair.eth_to_ven)
    ∷ ("elfeth", CurrencyPair.eth_to_elf)
    ∷ ("blzeth", CurrencyPair.eth_to_blz)
    ∷ ("reqeth", CurrencyPair.eth_to_req)
    ∷ ("linketh", CurrencyPair.eth_to_link)
    ∷ ("lsketh", CurrencyPair.eth_to_lsk)
    ∷ ("naseth", CurrencyPair.eth_to_nas)
    ∷ ("elaeth", CurrencyPair.eth_to_ela)
    ∷ ("adaeth", CurrencyPair.eth_to_ada)
    ∷ ("dashusdt", CurrencyPair.usdt_to_dash)
    ∷ ("btcusdt", CurrencyPair.usdt_to_btc)
    ∷ ("ltcusdt", CurrencyPair.usdt_to_ltc)
    ∷ ("xrpusdt", CurrencyPair.usdt_to_xrp)
    ∷ ("bchusdt", CurrencyPair.usdt_to_bcc)
    ∷ ("etcusdt", CurrencyPair.usdt_to_etc)
    ∷ ("omgusdt", CurrencyPair.usdt_to_omg)
    ∷ ("qtumusdt", CurrencyPair.usdt_to_qtum)
    ∷ ("ethusdt", CurrencyPair.usdt_to_eth)
    ∷ ("zecusdt", CurrencyPair.usdt_to_zec)
    ∷ ("neousdt", CurrencyPair.usdt_to_neo)
    ∷ ("eosusdt", CurrencyPair.usdt_to_eos)
    ∷ ("hsrusdt", CurrencyPair.usdt_to_hsr)
    ∷ ("zilusdt", CurrencyPair.usdt_to_zil)
    ∷ ("venusdt", CurrencyPair.usdt_to_ven)
    ∷ ("elfusdt", CurrencyPair.usdt_to_elf)
    ∷ ("nasusdt", CurrencyPair.usdt_to_nas)
    ∷ ("elausdt", CurrencyPair.usdt_to_ela)
    ∷ ("adausdt", CurrencyPair.usdt_to_ada)
    ∷ []

-- `get_currency_pair_from_huobi`
unfoldable pub get_currency_pair_from_huobi : String → Option CurrencyPair
unfolding huobi_pairs_from
get_currency_pair_from_huobi pair_name = get_by_name huobi_pairs_from pair_name
