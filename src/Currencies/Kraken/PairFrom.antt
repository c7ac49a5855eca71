-- ===== src/Currencies/Kraken/PairFrom.antt =====
-- From a pair name of Kraken to the pair (kraken/currency_utils.py).
use Prim.Native.String.{String}
use crypto_crawler.Prelude.{Option, List, [], ◌∷◌}
use crypto_crawler.Enums.CurrencyPair.{CurrencyPair}
use crypto_crawler.Currencies.Dict.{get_by_name}

unfoldable pub kraken_pairs_from : List (String × CurrencyPair)
kraken_pairs_from =
    ("DASHXBT", CurrencyPair.btc_to_dash)
    ∷ ("XETHXXBT", CurrencyPair.btc_to_eth)
    ∷ ("ETHXBT", CurrencyPair.btc_to_eth)
    ∷ ("XLTCXXBT", CurrencyPair.btc_to_ltc)
    ∷ ("LTCXBT", CurrencyPair.btc_to_ltc)
    ∷ ("XXRPXXBT", CurrencyPair.btc_to_xrp)
    ∷ ("XRPXBT", CurrencyPair.btc_to_xrp)
    ∷ ("BCHXBT", CurrencyPair.btc_to_bcc)
    ∷ ("XETCXXBT", CurrencyPair.btc_to_etc)
    ∷ ("ETCXBT", CurrencyPair.btc_to_etc)
    ∷ ("XXDGXXBT", CurrencyPair.btc_to_doge)
    ∷ ("XDGXBT", CurrencyPair.btc_to_doge)
    ∷ ("XZECXXBT", CurrencyPair.btc_to_zec)
    ∷ ("ZECXBT", CurrencyPair.btc_to_zec)
    ∷ ("XREPXXBT", CurrencyPair.btc_to_rep)
    ∷ ("REPXBT", CurrencyPair.btc_to_rep)
    ∷ ("XXMRXXBT", CurrencyPair.btc_to_xmr)
    ∷ ("XMRXBT", CurrencyPair.btc_to_xmr)
    ∷ ("EOSXBT", CurrencyPair.btc_to_eos)
    ∷ ("XLMXBT", CurrencyPair.btc_to_xlm)
    ∷ ("XXLMXBT", CurrencyPair.btc_to_xlm)
    ∷ ("XXLMXXBT", CurrencyPair.btc_to_xlm)
    ∷ ("XETCXETH", CurrencyPair.eth_to_etc)
    ∷ ("ETCETH", CurrencyPair.eth_to_etc)
    ∷ ("XREPXETH", CurrencyPair.eth_to_rep)
    ∷ ("REPETH", CurrencyPair.eth_to_rep)
    ∷ ("EOSETH", CurrencyPair.eth_to_eos)
    ∷ ("DASHUSD", CurrencyPair.usd_to_dash)
    ∷ ("XETHZUSD", CurrencyPair.usd_to_eth)
    ∷ ("ETHUSD", CurrencyPair.usd_to_eth)
    ∷ ("XLTCZUSD", CurrencyPair.usd_to_ltc)
    ∷ ("LTCUSD", CurrencyPair.usd_to_ltc)
    ∷ ("XXRPZUSD", CurrencyPair.usd_to_xrp)
    ∷ ("XRPUSD", CurrencyPair.usd_to_xrp)
    ∷ ("BCHUSD", CurrencyPair.usd_to_bcc)
    ∷ ("XETCZUSD", CurrencyPair.usd_to_etc)
    ∷ ("ETCUSD", CurrencyPair.usd_to_etc)
    ∷ ("XZECZUSD", CurrencyPair.usd_to_zec)
    ∷ ("ZECUSD", CurrencyPair.usd_to_zec)
    ∷ ("XXMRZUSD", CurrencyPair.usd_to_xmr)
    ∷ ("XMRUSD", CurrencyPair.usd_to_xmr)
    ∷ ("USDTZUSD", CurrencyPair.usd_to_usdt)
    ∷ []

-- `get_currency_pair_from_kraken`
unfoldable pub get_currency_pair_from_kraken : String → Option CurrencyPair
unfolding kraken_pairs_from
get_currency_pair_from_kraken pair_name = get_by_name kraken_pairs_from pair_name
