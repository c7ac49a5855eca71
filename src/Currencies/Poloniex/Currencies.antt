-- ===== src/Currencies/Poloniex/Currencies.antt =====
-- The names of currencies at Poloniex (poloniex/currency_utils.py).
use Prim.Native.String.{String}
use crypto_crawler.Prelude.{Option, List, [], ◌∷◌, ℕ}
use crypto_crawler.Enums.Currency.{Currency}
use crypto_crawler.Currencies.Dict.{get_by_currency, get_by_name}

unfoldable pub poloniex_currency_names : List (Currency × String)
poloniex_currency_names =
    (Currency.bitcoin, "BTC")
    ∷ (Currency.dash, "DASH")
    ∷ (Currency.bcc, "BCH")
    ∷ (Currency.xrp, "XRP")
    ∷ (Currency.ltc, "LTC")
    ∷ (Currency.etc, "ETC")
    ∷ (Currency.eth, "ETH")
    ∷ (Currency.sc, "SC")
    ∷ (Currency.dgb, "DGB")
    ∷ (Currency.xem, "XEM")
    ∷ (Currency.ardr, "ARDR")
    ∷ (Currency.omg, "OMG")
    ∷ (Currency.zec, "ZEC")
    ∷ (Currency.rep, "REP")
    ∷ (Currency.xmr, "XMR")
    ∷ (Currency.doge, "DOGE")
    ∷ (Currency.dcr, "DCR")
    ∷ (Currency.zrx, "ZRX")
    ∷ (Currency.gas, "GAS")
    ∷ (Currency.strat, "STRAT")
    ∷ (Currency.xlm, "STR")
    ∷ (Currency.lsk, "LSK")
    ∷ (Currency.eng, "ENG")
    ∷ (Currency.xvg, "XVG")
    ∷ (Currency.usdt, "USDT")
    ∷ []

-- `get_currency_name_for_poloniex`
unfoldable pub get_currency_name_for_poloniex : ℕ → Option String
unfolding poloniex_currency_names
get_currency_name_for_poloniex currency_id = get_by_currency poloniex_currency_names currency_id

unfoldable pub poloniex_currency_ids : List (String × Currency)
poloniex_currency_ids =
    ("BTC", Currency.bitcoin)
    ∷ ("DASH", Currency.dash)
    ∷ ("BCH", Currency.bcc)
    ∷ ("XRP", Currency.xrp)
    ∷ ("LTC", Currency.ltc)
    ∷ ("ETC", Currency.etc)
    ∷ ("ETH", Currency.eth)
    ∷ ("SC", Currency.sc)
    ∷ ("DGB", Currency.dgb)
    ∷ ("XEM", Currency.xem)
    ∷ ("ARDR", Currency.ardr)
    ∷ ("OMG", Currency.omg)
    ∷ ("ZEC", Currency.zec)
    ∷ ("REP", Currency.rep)
    ∷ ("XMR", Currency.xmr)
    ∷ ("DOGE", Currency.doge)
    ∷ ("DCR", Currency.dcr)
    ∷ ("ZRX", Currency.zrx)
    ∷ ("GAS", Currency.gas)
    ∷ ("STRAT", Currency.strat)
    ∷ ("STR", Currency.xlm)
    ∷ ("LSK", Currency.lsk)
    ∷ ("ENG", Currency.eng)
    ∷ ("XVG", Currency.xvg)
    ∷ ("USDT", Currency.usdt)
    ∷ []

-- `get_currency_id_from_poloniex`
unfoldable pub get_currency_id_from_poloniex : String → Option Currency
unfolding poloniex_currency_ids
get_currency_id_from_poloniex pair_name = get_by_name poloniex_currency_ids pair_name
