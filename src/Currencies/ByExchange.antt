-- ===== src/Currencies/ByExchange.antt =====
-- `get_currency_pair_name_by_exchange_id` (utils/currency_utils.py) and the names of exchanges
-- (utils/exchange_utils.py).
use Prim.Native.String.{String}
use crypto_crawler.Prelude.{ℕ, Option, List, [], ◌∷◌}
use crypto_crawler.Enums.Exchange.{Exchange}
use crypto_crawler.Currencies.Dict.{get_by_exchange, get_by_name, upper}
use crypto_crawler.Currencies.Binance.PairTo.{get_currency_pair_to_binance}
use crypto_crawler.Currencies.Bittrex.PairTo.{get_currency_pair_to_bittrex}
use crypto_crawler.Currencies.Huobi.PairTo.{get_currency_pair_to_huobi}
use crypto_crawler.Currencies.Kraken.PairTo.{get_currency_pair_to_kraken}
use crypto_crawler.Currencies.Poloniex.PairTo.{get_currency_pair_to_poloniex}

-- The outer `none` is the `KeyError` of an unknown exchange, the inner one an unknown pair.
unfoldable pub get_currency_pair_name_by_exchange_id : ℕ → ℕ → Option (Option String)
unfolding get_by_exchange
get_currency_pair_name_by_exchange_id pair_id exchange_id =
    get_by_exchange
      ((Exchange.bittrex, get_currency_pair_to_bittrex pair_id)
        ∷ (Exchange.kraken, get_currency_pair_to_kraken pair_id)
        ∷ (Exchange.poloniex, get_currency_pair_to_poloniex pair_id)
        ∷ (Exchange.binance, get_currency_pair_to_binance pair_id)
        ∷ (Exchange.huobi, get_currency_pair_to_huobi pair_id)
        ∷ [])
      exchange_id

unfoldable pub exchange_name_table : List (Exchange × String)
exchange_name_table =
    (Exchange.poloniex, "POLONIEX")
    ∷ (Exchange.kraken, "KRAKEN")
    ∷ (Exchange.bittrex, "BITTREX")
    ∷ (Exchange.binance, "BINANCE")
    ∷ (Exchange.huobi, "HUOBI")
    ∷ []

-- `get_exchange_name_by_id`
unfoldable pub get_exchange_name_by_id : ℕ → Option String
unfolding exchange_name_table
get_exchange_name_by_id exchange_id = get_by_exchange exchange_name_table exchange_id

unfoldable pub exchange_id_table : List (String × Exchange)
exchange_id_table =
    ("POLONIEX", Exchange.poloniex)
    ∷ ("KRAKEN", Exchange.kraken)
    ∷ ("BITTREX", Exchange.bittrex)
    ∷ ("BINANCE", Exchange.binance)
    ∷ ("HUOBI", Exchange.huobi)
    ∷ []

-- `get_exchange_id_by_name`
unfoldable pub get_exchange_id_by_name : String → Option Exchange
unfolding exchange_id_table
get_exchange_id_by_name exchange_name = get_by_name exchange_id_table (upper exchange_name)
