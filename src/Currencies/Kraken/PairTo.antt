-- ===== src/Currencies/Kraken/PairTo.antt =====
-- From a pair to its name at Kraken (kraken/currency_utils.py).
use Prim.Native.String.{String}
use crypto_crawler.Prelude.{Option, List, [], ◌∷◌, ℕ}
use crypto_crawler.Enums.CurrencyPair.{CurrencyPair}
use crypto_crawler.Currencies.Dict.{get_by_pair}

unfoldable pub kraken_pairs_to : List (CurrencyPair × String)
kraken_pairs_to =
    (CurrencyPair.btc_to_dash, "DASHXBT")
    ∷ (CurrencyPair.btc_to_eth, "XETHXXBT")
    ∷ (CurrencyPair.btc_to_ltc, "XLTCXXBT")
    ∷ (CurrencyPair.btc_to_xrp, "XXRPXXBT")
    ∷ (CurrencyPair.btc_to_bcc, "BCHXBT")
    ∷ (CurrencyPair.btc_to_etc, "XETCXXBT")
    ∷ (CurrencyPair.btc_to_zec, "XZECXXBT")
    ∷ (CurrencyPair.btc_to_rep, "XREPXXBT")
    ∷ (CurrencyPair.btc_to_doge, "XXDGXXBT")
    ∷ (CurrencyPair.btc_to_xmr, "XXMRXXBT")
    ∷ (CurrencyPair.btc_to_eos, "EOSXBT")
    ∷ (CurrencyPair.btc_to_xlm, "XXLMXXBT")
    ∷ (CurrencyPair.eth_to_etc, "XETCXETH")
    ∷ (CurrencyPair.eth_to_rep, "XREPXETH")
    ∷ (CurrencyPair.eth_to_eos, "EOSETH")
    ∷ (CurrencyPair.usd_to_dash, "DASHUSD")
    ∷ (CurrencyPair.usd_to_eth, "XETHZUSD")
    ∷ (CurrencyPair.usd_to_ltc, "XLTCZUSD")
    ∷ (CurrencyPair.usd_to_xrp, "XXRPZUSD")
    ∷ (CurrencyPair.usd_to_bcc, "BCHUSD")
    ∷ (CurrencyPair.usd_to_etc, "XETCZUSD")
    ∷ (CurrencyPair.usd_to_zec, "XZECZUSD")
    ∷ (CurrencyPair.usd_to_xmr, "XXMRZUSD")
    ∷ (CurrencyPair.usd_to_usdt, "USDTZUSD")
    ∷ []

-- `get_currency_pair_to_kraken`
unfoldable pub get_currency_pair_to_kraken : ℕ → Option String
unfolding kraken_pairs_to
get_currency_pair_to_kraken pair_id = get_by_pair kraken_pairs_to pair_id
