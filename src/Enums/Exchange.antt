-- ===== src/Enums/Exchange.antt =====
-- The class `EXCHANGE` (enums/exchange.py).
use crypto_crawler.Prelude.{ℕ, List, [], ◌∷◌}

pub data Exchange : Type 0 where
  poloniex kraken bittrex binance huobi : Exchange

-- The number of each.
unfoldable pub id : Exchange → ℕ
id Exchange.poloniex = 1
id Exchange.kraken = 2
id Exchange.bittrex = 3
id Exchange.binance = 4
id Exchange.huobi = 5

-- `EXCHANGE.values()`
unfoldable pub values : List Exchange
values =
    Exchange.poloniex ∷ Exchange.kraken ∷ Exchange.bittrex ∷ Exchange.binance ∷ Exchange.huobi ∷ []
