-- ===== src/Currencies/Kraken/Currencies.antt =====
-- The names of currencies at Kraken (kraken/currency_utils.py).
use Prim.Native.String.{String}
use crypto_crawler.Prelude.{Option, List, [], ◌∷◌, ℕ}
use crypto_crawler.Enums.Currency.{Currency}
use crypto_crawler.Currencies.Dict.{get_by_currency, get_by_name}

unfoldable pub kraken_currency_names : List (Currency × String)
kraken_currency_names =
    (Currency.bitcoin, "XXBT")
    ∷ (Currency.dash, "DASH")
    ∷ (Currency.bcc, "BCH")
    ∷ (Currency.xrp, "XXRP")
    ∷ (Currency.ltc, "XLTC")
    ∷ (Currency.etc, "XETC")
    ∷ (Currency.eth, "XETH")
    ∷ (Currency.doge, "XXDG")
    ∷ (Currency.usd, "ZUSD")
    ∷ (Currency.usdt, "USDT")
    ∷ (Currency.zec, "XZEC")
    ∷ (Currency.rep, "XREP")
    ∷ (Currency.xmr, "XXMR")
    ∷ (Currency.eos, "EOS")
    ∷ (Currency.xlm, "XLM")
    ∷ []

-- `get_currency_name_for_kraken`
unfoldable pub get_currency_name_for_kraken : ℕ → Option String
unfolding kraken_currency_names
get_currency_name_for_kraken currency_id = get_by_currency kraken_currency_names currency_id

unfoldable pub kraken_currency_ids : List (String × Currency)
kraken_currency_ids =
    ("XXBT", Currency.bitcoin)
    ∷ ("XBT", Currency.bitcoin)
    ∷ ("DASH", Currency.dash)
    ∷ ("BCH", Currency.bcc)
    ∷ ("XXRP", Currency.xrp)
    ∷ ("XRP", Currency.xrp)
    ∷ ("XLTC", Currency.ltc)
    ∷ ("LTC", Currency.ltc)
    ∷ ("XETC", Currency.etc)
    ∷ ("ETC", Currency.etc)
    ∷ ("XETH", Currency.eth)
    ∷ ("ETH", Currency.eth)
    ∷ ("XXDG", Currency.doge)
    ∷ ("XDG", Currency.doge)
    ∷ ("ZUSD", Currency.usd)
    ∷ ("USDT", Currency.usdt)
    ∷ ("XZEC", Currency.zec)
    ∷ ("ZEC", Currency.zec)
    ∷ ("XREP", Currency.rep)
    ∷ ("REP", Currency.rep)
    ∷ ("XXMR", Currency.xmr)
    ∷ ("XMR", Currency.xmr)
    ∷ ("EOS", Currency.eos)
    ∷ ("XLM", Currency.xlm)
    ∷ ("XXLM", Currency.xlm)
    ∷ []

-- `get_currency_id_from_kraken`
unfoldable pub get_currency_id_from_kraken : String → Option Currency
unfolding kraken_currency_ids
get_currency_id_from_kraken pair_name = get_by_name kraken_currency_ids pair_name
