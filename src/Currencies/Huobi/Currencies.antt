-- ===== src/Currencies/Huobi/Currencies.antt =====
-- The names of currencies at Huobi (huobi/currency_utils.py).
use Prim.Native.String.{String}
use crypto_crawler.Prelude.{Option, List, [], ◌∷◌, ℕ}
use crypto_crawler.Enums.Currency.{Currency}
use crypto_crawler.Currencies.Dict.{get_by_currency, get_by_name}

unfoldable pub huobi_currency_names : List (Currency × String)
huobi_currency_names =
    (Currency.bitcoin, "btc")
    ∷ (Currency.dash, "dash")
    ∷ (Currency.bcc, "bch")
    ∷ (Currency.xrp, "xrp")
    ∷ (Currency.ltc, "ltc")
    ∷ (Currency.etc, "etc")
    ∷ (Currency.eth, "eth")
    ∷ (Currency.xem, "xem")
    ∷ (Currency.omg, "omg")
    ∷ (Currency.zec, "zec")
    ∷ (Currency.neo, "neo")
    ∷ (Currency.qtum, "qtum")
    ∷ (Currency.eos, "eos")
    ∷ (Currency.btg, "btg")
    ∷ (Currency.knc, "knc")
    ∷ (Currency.bat, "bat")
    ∷ (Currency.zrx, "zrx")
    ∷ (Currency.rdn, "rdn")
    ∷ (Currency.gas, "gas")
    ∷ (Currency.rcn, "rcn")
    ∷ (Currency.icx, "icx")
    ∷ (Currency.trx, "trx")
    ∷ (Currency.lsk, "lsk")
    ∷ (Currency.eng, "eng")
    ∷ (Currency.qsp, "qsp")
    ∷ (Currency.ont, "ont")
    ∷ (Currency.hsr, "hsr")
    ∷ (Currency.zil, "zil")
    ∷ (Currency.ven, "ven")
    ∷ (Currency.elf, "elf")
    ∷ (Currency.blz, "blz")
    ∷ (Currency.req, "req")
    ∷ (Currency.link, "link")
    ∷ (Currency.ela, "ela")
    ∷ (Currency.nas, "nas")
    ∷ (Currency.ada, "ada")
    ∷ (Currency.usdt, "usdt")
    ∷ []

-- `get_currency_name_for_huobi`
unfoldable pub get_currency_name_for_huobi : ℕ → Option String
unfolding huobi_currency_names
get_currency_name_for_huobi currency_id = get_by_currency huobi_currency_names currency_id

unfoldable pub huobi_currency_ids : List (String × Currency)
huobi_currency_ids =
    ("btc", Currency.bitcoin)
    ∷ ("dash", Currency.dash)
    ∷ ("bch", Currency.bcc)
    ∷ ("xrp", Currency.xrp)
    ∷ ("ltc", Currency.ltc)
    ∷ ("etc", Currency.etc)
    ∷ ("eth", Currency.eth)
    ∷ ("xem", Currency.xem)
    ∷ ("omg", Currency.omg)
    ∷ ("zec", Currency.zec)
    ∷ ("neo", Currency.neo)
    ∷ ("qtum", Currency.qtum)
    ∷ ("eos", Currency.eos)
    ∷ ("btg", Currency.btg)
    ∷ ("knc", Currency.knc)
    ∷ ("bat", Currency.bat)
    ∷ ("zrx", Currency.zrx)
    ∷ ("rdn", Currency.rdn)
    ∷ ("gas", Currency.gas)
    ∷ ("rcn", Currency.rcn)
    ∷ ("icx", Currency.icx)
    ∷ ("trx", Currency.trx)
    ∷ ("lsk", Currency.lsk)
    ∷ ("eng", Currency.eng)
    ∷ ("qsp", Currency.qsp)
    ∷ ("ont", Currency.ont)
    ∷ ("hsr", Currency.hsr)
    ∷ ("zil", Currency.zil)
    ∷ ("ven", Currency.ven)
    ∷ ("elf", Currency.elf)
    ∷ ("blz", Currency.blz)
    ∷ ("req", Currency.req)
    ∷ ("link", Currency.link)
    ∷ ("ela", Currency.ela)
    ∷ ("nas", Currency.nas)
    ∷ ("ada", Currency.ada)
    ∷ ("usdt", Currency.usdt)
    ∷ []

-- `get_currency_id_from_huobi`
unfoldable pub get_currency_id_from_huobi : String → Option Currency
unfolding huobi_currency_ids
get_currency_id_from_huobi pair_name = get_by_name huobi_currency_ids pair_name
