-- ===== src/Tests/Orders.antt =====
-- Examples for the orders that the services look after (core/expired_order.py, core/failed_order.py).
use Prim.Native.String.{String}
use crypto_crawler.Prelude.{
  ℕ, ℤ, pos, ◌≡◌, refl, ◌∙◌, ◌⊎◌, true, false, Option, none, some, [], ◌∷◌, All,
}
use crypto_crawler.Enums.Currency
use crypto_crawler.Enums.Currency.{Currency}
use crypto_crawler.Enums.DealType.{DealType}
use crypto_crawler.Enums.Exchange
use crypto_crawler.Enums.Exchange.{Exchange}
use crypto_crawler.Enums.CurrencyPair
use crypto_crawler.Enums.CurrencyPair.{CurrencyPair}
use crypto_crawler.OrderBook.Insert.{Outcome, done}
use crypto_crawler.OrderBook.Book.{OrderBook, name}
use crypto_crawler.Balances.{Balance}
use crypto_crawler.Orders.{decimal, float, Trade, Run}
use crypto_crawler.Orders.Volume.{executed_volume_updated}
use crypto_crawler.Orders.Placing.{Answer, accepted, init_deal}
use crypto_crawler.Orders.Market.{Market}
use crypto_crawler.Orders.Expired.{Venue, process_expired_order}
use crypto_crawler.Orders.Failed.{process_failed_order, search_until, try_to_set_order_id}
use crypto_crawler.Orders.Protocol.{standing, Accounted, SameOrder, Allowed, order_of}
use crypto_crawler.Orders.Protocol.Expired.{
  process_expired_order-Accounted, process_expired_order-sends_nothing,
}
use crypto_crawler.Orders.Protocol.Failed.{stage_of, process_failed_order-Accounted}
use crypto_crawler.Orders.Searching.{Searched, try_to_set_order_id-Searched}
use crypto_crawler.Orders.Laws.{NoMatch, IsFirst, TakesFrom, executed_volume_updated-Splits}
use crypto_crawler.Orders.Service.{Queues, expired_round, saving_round, start, expired, saving}
use crypto_crawler.Orders.Service.Tracked.{Keeps, Rounds-Keeps}
use crypto_crawler.Tests.Cents.{cents}

abbrev order_with : Option String → ℤ → Option ℤ → ℕ → Trade
order_with id volume executed time = record {
  trade_type = DealType.sell;
  exchange_id = 4;
  pair_id = 17;
  price = pos 200;
  volume = volume;
  volume_type = decimal;
  order_book_time = 0;
  create_time = time;
  execute_time = none;
  order_id = id;
  trade_id = none;
  executed_volume = executed;
  arbitrage_id = pos 7;
}

-- An order to sell 4.50 NEO, of which 3 are sold.
abbrev order : Trade
order = order_with (some "a1") (pos 450) none 1000

abbrev open_order : Trade
open_order = order_with (some "a1") (pos 450) (some (pos 300)) 1000

abbrev book : OrderBook
book = record {
  pair_id = 17;
  pair_name = name "BTC_TO_NEO";
  timest = 5;
  ask = record { price = 210; volume = 900 } ∷ [];
  bid = record { price = 190; volume = 900 } ∷ [];
  exchange_id = 4;
  exchange = name "BINANCE";
  sequence_id = none;
}

abbrev balance : Balance
balance = record {
  exchange_id = 4;
  last_update = 2000;
  available_balance = (17, pos 600) ∷ [];
  total_balance = [];
}

abbrev market : Market
market = record {
  ticker = some (pos 200);
  order_book = some book;
  prev_order_book = none;
  balance = some balance;
  clock = record { balance_checked = 2010; created = 2011; executed = 2012; rounded_type = float };
}

abbrev exchange : Venue
exchange = record { open_orders = some (open_order ∷ []); cancelled = true; market = market }

abbrev init : Trade → Outcome Answer
init o = done (accepted (some "b2"))

process_expired_order-Accounted_example :
    Accounted true order standing (process_expired_order cents init exchange order)
process_expired_order-Accounted_example = process_expired_order-Accounted cents init exchange order

process_expired_order-sends_nothing_example :
    All
      (λ e. SameOrder order (order_of e) × Allowed false e)
      (process_expired_order cents init_deal exchange order).1
process_expired_order-sends_nothing_example =
    process_expired_order-sends_nothing cents exchange order

-- The first reply for the open orders is a failure; the order is in the history.
process_failed_order-Accounted_example :
    (run : Run) × (o1 o2 : Trade) × (process_failed_order cents init market
        (none ∷ some [] ∷ [])
        (some (open_order ∷ []) ∷ [])
        (order_with none (pos 450) none 990)
      ≡ some run)
    × (search_until (none ∷ some [] ∷ []) (order_with none (pos 450) none 990) ≡ some o1)
    × (search_until (some (open_order ∷ []) ∷ []) o1 ≡ some o2)
    × Accounted true (order_with none (pos 450) none 990) (stage_of o1.order_id o2.order_id) run
process_failed_order-Accounted_example =
    process_failed_order-Accounted cents init market (none ∷ some [] ∷ [])
      (some (open_order ∷ []) ∷ []) (order_with none (pos 450) none 990) tt tt

try_to_set_order_id-Searched_example :
    Searched
      (order_with none (pos 450) none 990)
      (open_order ∷ [])
      (try_to_set_order_id (open_order ∷ []) (order_with none (pos 450) none 990))
try_to_set_order_id-Searched_example =
    try_to_set_order_id-Searched (open_order ∷ []) (order_with none (pos 450) none 990)

executed_volume_updated-Splits_example :
    (NoMatch (open_order ∷ []) order
      × (executed_volume_updated (open_order ∷ []) order ≡ done (false, order)))
    ⊎ ((x : Trade) × IsFirst (open_order ∷ []) x order
        × TakesFrom x order (executed_volume_updated (open_order ∷ []) order))
executed_volume_updated-Splits_example = executed_volume_updated-Splits (open_order ∷ []) order

abbrev queues : Queues
queues = record { watched = order ∷ []; failed = []; orders = []; rows = [] }

Rounds-Keeps_example :
    Keeps (λ o. o.pair_id ≡ 17) queues (saving_round (expired_round cents init exchange queues))
Rounds-Keeps_example =
    Rounds-Keeps (λ o. o.pair_id ≡ 17) (λ a b p same. same.2 ∙ p) cents init queues
      (saving_round (expired_round cents init exchange queues)) (expired exchange (saving start))
      ((refl, tt), tt)
