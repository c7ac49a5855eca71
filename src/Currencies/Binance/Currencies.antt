-- ===== src/Currencies/Binance/Currencies.antt =====
-- The names of currencies at Binance (binance/currency_utils.py).
use Prim.Native.String.{String}
use crypto_crawler.Prelude.{Option, List, [], ◌∷◌, ℕ}
use crypto_crawler.Enums.Currency.{Currency}
use crypto_crawler.Currencies.Dict.{get_by_currency, get_by_name}

unfoldable pub binance_currency_names : List (Currency × String)
binance_currency_names =
    (Currency.bitcoin, "BTC")
    ∷ (Currency.dash, "DASH")
    ∷ (Currency.bcc, "BCC")
    ∷ (Currency.xrp, "XRP")
    ∷ (Currency.ltc, "LTC")
    ∷ (Currency.etc, "ETC")
    ∷ (Currency.eth, "ETH")
    ∷ (Currency.sc, "SC")
    ∷ (Currency.dgb, "DGB")
    ∷ (Currency.xem, "XEM")
    ∷ (Currency.ardr, "ARDR")
    ∷ (Currency.omg, "OMG")
    ∷ (Currency.zec, "ZEC")
    ∷ (Currency.rep, "REP")
    ∷ (Currency.xmr, "XMR")
    ∷ (Currency.doge, "DOGE")
    ∷ (Currency.dcr, "DCR")
    ∷ (Currency.neo, "NEO")
    ∷ (Currency.qtum, "QTUM")
    ∷ (Currency.eos, "EOS")
    ∷ (Currency.iota, "IOTA")
    ∷ (Currency.btg, "BTG")
    ∷ (Currency.wtc, "WTC")
    ∷ (Currency.knc, "KNC")
    ∷ (Currency.bat, "BAT")
    ∷ (Currency.zrx, "ZRX")
    ∷ (Currency.rdn, "RDN")
    ∷ (Currency.gas, "GAS")
    ∷ (Currency.ada, "ADA")
    ∷ (Currency.qsp, "QSP")
    ∷ (Currency.rcn, "RCN")
    ∷ (Currency.icx, "ICX")
    ∷ (Currency.wabi, "WABI")
    ∷ (Currency.xlm, "XLM")
    ∷ (Currency.trx, "TRX")
    ∷ (Currency.aion, "AION")
    ∷ (Currency.ark, "ARK")
    ∷ (Currency.strat, "STRAT")
    ∷ (Currency.lsk, "LSK")
    ∷ (Currency.eng, "ENG")
    ∷ (Currency.xvg, "XVG")
    ∷ (Currency.ont, "ONT")
    ∷ (Currency.hsr, "HSR")
    ∷ (Currency.zil, "ZIL")
    ∷ (Currency.ven, "VEN")
    ∷ (Currency.elf, "ELF")
    ∷ (Currency.blz, "BLZ")
    ∷ (Currency.req, "REQ")
    ∷ (Currency.link, "LINK")
    ∷ (Currency.usdt, "USDT")
    ∷ []

-- `get_currency_name_for_binance`
unfoldable pub get_currency_name_for_binance : ℕ → Option String
unfolding binance_currency_names
get_currency_name_for_binance currency_id = get_by_currency binance_currency_names currency_id

unfoldable pub binance_currency_ids : List (String × Currency)
binance_currency_ids =
    ("BTC", Currency.bitcoin)
    ∷ ("DASH", Currency.dash)
    ∷ ("BCC", Currency.bcc)
    ∷ ("XRP", Currency.xrp)
    ∷ ("LTC", Currency.ltc)
    ∷ ("ETC", Currency.etc)
    ∷ ("ETH", Currency.eth)
    ∷ ("SC", Currency.sc)
    ∷ ("DGB", Currency.dgb)
    ∷ ("XEM", Currency.xem)
    ∷ ("ARDR", Currency.ardr)
    ∷ ("OMG", Currency.omg)
    ∷ ("ZEC", Currency.zec)
    ∷ ("REP", Currency.rep)
    ∷ ("XMR", Currency.xmr)
    ∷ ("DOGE", Currency.doge)
    ∷ ("DCR", Currency.dcr)
    ∷ ("NEO", Currency.neo)
    ∷ ("QTUM", Currency.qtum)
    ∷ ("EOS", Currency.eos)
    ∷ ("IOTA", Currency.iota)
    ∷ ("BTG", Currency.btg)
    ∷ ("WTC", Currency.wtc)
    ∷ ("KNC", Currency.knc)
    ∷ ("BAT", Currency.bat)
    ∷ ("ZRX", Currency.zrx)
    ∷ ("RDN", Currency.rdn)
    ∷ ("GAS", Currency.gas)
    ∷ ("ADA", Currency.ada)
    ∷ ("QSP", Currency.qsp)
    ∷ ("RCN", Currency.rcn)
    ∷ ("ICX", Currency.icx)
    ∷ ("WABI", Currency.wabi)
    ∷ ("XLM", Currency.xlm)
    ∷ ("TRX", Currency.trx)
    ∷ ("AION", Currency.aion)
    ∷ ("ARK", Currency.ark)
    ∷ ("STRAT", Currency.strat)
    ∷ ("LSK", Currency.lsk)
    ∷ ("ENG", Currency.eng)
    ∷ ("XVG", Currency.xvg)
    ∷ ("ONT", Currency.ont)
    ∷ ("HSR", Currency.hsr)
    ∷ ("ZIL", Currency.zil)
    ∷ ("VEN", Currency.ven)
    ∷ ("ELF", Currency.elf)
    ∷ ("BLZ", Currency.blz)
    ∷ ("REQ", Currency.req)
    ∷ ("LINK", Currency.link)
    ∷ ("USDT", Currency.usdt)
    ∷ []

-- `get_currency_id_from_binance`
unfoldable pub get_currency_id_from_binance : String → Option Currency
unfolding binance_currency_ids
get_currency_id_from_binance pair_name = get_by_name binance_currency_ids pair_name
