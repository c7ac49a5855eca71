-- ===== src/Currencies/CurrencyNames.antt =====
-- `get_currency_name_by_id` (utils/currency_utils.py).
use Prim.Native.String.{String}
use crypto_crawler.Prelude.{Option, List, [], ◌∷◌, ℕ}
use crypto_crawler.Enums.Currency.{Currency}
use crypto_crawler.Currencies.Dict.{get_by_currency}

unfoldable pub currency_name_table : List (Currency × String)
currency_name_table =
    (Currency.bitcoin, "BTC")
    ∷ (Currency.dash, "DASH")
    ∷ (Currency.bcc, "BCH")
    ∷ (Currency.xrp, "XRP")
    ∷ (Currency.ltc, "LTC")
    ∷ (Currency.etc, "ETC")
    ∷ (Currency.eth, "ETH")
    ∷ (Currency.sc, "SC")
    ∷ (Currency.dgb, "DGB")
    ∷ (Currency.xem, "XEM")
    ∷ (Currency.ardr, "ARDR")
    ∷ (Currency.omg, "OMG")
    ∷ (Currency.zec, "ZEC")
    ∷ (Currency.rep, "REP")
    ∷ (Currency.xmr, "XMR")
    ∷ (Currency.doge, "DOGE")
    ∷ (Currency.dcr, "DCR")
    ∷ (Currency.neo, "NEO")
    ∷ (Currency.qtum, "QTUM")
    ∷ (Currency.eos, "EOS")
    ∷ (Currency.iota, "IOTA")
    ∷ (Currency.btg, "BTG")
    ∷ (Currency.wtc, "WTC")
    ∷ (Currency.knc, "KNC")
    ∷ (Currency.bat, "BAT")
    ∷ (Currency.zrx, "ZRX")
    ∷ (Currency.rdn, "RDN")
    ∷ (Currency.gas, "GAS")
    ∷ (Currency.ada, "ADA")
    ∷ (Currency.rcn, "RCN")
    ∷ (Currency.qsp, "QSB")
    ∷ (Currency.xby, "XBY")
    ∷ (Currency.pac, "PAC")
    ∷ (Currency.rdd, "RDD")
    ∷ (Currency.icx, "ICX")
    ∷ (Currency.wabi, "WABI")
    ∷ (Currency.xlm, "XLM")
    ∷ (Currency.trx, "TRX")
    ∷ (Currency.aion, "AION")
    ∷ (Currency.itc, "ITC")
    ∷ (Currency.ark, "ARK")
    ∷ (Currency.strat, "STRAT")
    ∷ (Currency.lsk, "LSK")
    ∷ (Currency.eng, "ENG")
    ∷ (Currency.xvg, "XVG")
    ∷ (Currency.ont, "ONT")
    ∷ (Currency.hsr, "HSR")
    ∷ (Currency.zil, "ZIL")
    ∷ (Currency.ven, "VEN")
    ∷ (Currency.elf, "ELF")
    ∷ (Currency.blz, "BLZ")
    ∷ (Currency.req, "REQ")
    ∷ (Currency.link, "LINK")
    ∷ (Currency.nas, "NAS")
    ∷ (Currency.ela, "ELA")
    ∷ (Currency.usd, "USD")
    ∷ (Currency.usdt, "USDT")
    ∷ []

-- `get_currency_name_by_id`
unfoldable pub get_currency_name_by_id : ℕ → Option String
unfolding currency_name_table
get_currency_name_by_id currency_id = get_by_currency currency_name_table currency_id
