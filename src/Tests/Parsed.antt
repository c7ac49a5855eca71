-- ===== src/Tests/Parsed.antt =====
-- Examples for the balances that the exchanges send (data/balance.py).
use Prim.Native.Nat.{zero, suc}
use crypto_crawler.Prelude.{ℕ, ℤ, pos, ◌≡◌, refl, Option, none, some, ◌>>=◌}
use crypto_crawler.Sockets.{Json, Items, nil, cons, Fields, end, field, array, object, str}
use crypto_crawler.Currencies.Dict.{get_by_currency}
use crypto_crawler.Balances.{get_balance, store}
use crypto_crawler.Balances.Parsed.{from_huobi}
use crypto_crawler.Balances.Parsed.Laws.{ReadsAll, from_json-ReadsAll}

-- Amounts are written in tallies.
abbrev tallies : ℕ → Items
tallies zero = nil
tallies (suc n) = cons Json.null (tallies n)

abbrev amount : ℕ → Json
amount n = array (tallies n)

abbrev tallied : Items → ℕ
tallied nil = 0
tallied (cons j js) = suc (tallied js)

abbrev to_decimal : Json → Option ℤ
to_decimal (array js) = some (pos (tallied js))
to_decimal _ = none

-- The entries of Bitcoin in the formats of Kraken, Poloniex, Binance and Huobi.
abbrev balances : Fields
balances = field "XXBT" (amount 3) (
    field "BTC" (object (field "available" (amount 2) (field "onOrders" (amount 1) end))) (
      field "balances"
        (array (
          cons
            (object
              (field "asset" (str "BTC") (field "free" (amount 4) (field "locked" (amount 1) end))))
            nil))
        (field "list"
          (array (
            cons
              (object (
                field "currency" (str "btc")
                  (field "type" (str "trade") (field "balance" (amount 5) end))))
              (cons
                (object (
                  field "currency" (str "btc")
                    (field "type" (str "frozen") (field "balance" (amount 2) end))))
                nil)))
          end)))

-- The volume that trades is available, and the frozen one is not.
huobi_bitcoin :
    (from_huobi to_decimal 1 (object balances) >>= (λ b. get_balance b 0)) ≡ some (pos 5)
unfolding from_huobi get_balance get_by_currency store
huobi_bitcoin = refl

from_json-ReadsAll_example : ReadsAll to_decimal (object balances) 1
from_json-ReadsAll_example = from_json-ReadsAll to_decimal (object balances) 1
