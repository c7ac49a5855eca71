-- ===== src/Lib.antt =====
-- A model of the core of a program that trades between exchanges of crypto currencies.
--
-- The program follows the order books of two exchanges over sockets. Every message of an exchange
-- becomes a whole book or a change (data/order_book_update.py); the listener
-- (services/arbitrage_between_pair_subscription.py) gives it to `OrderBook.update`
-- (data/order_book.py), which keeps the two sides sorted by price and finds the place of a price
-- with `binary_search` (analysis/binary_search.py). A deal takes its volume and its price from the
-- two books (core/arbitrage_core.py). Pairs and currencies are numbers (enums/), and
-- each exchange has tables that translate them to its own names (*/currency_utils.py).
-- An order that was placed (data/trade.py) is in the watch list, from which a service takes the oldest
-- (core/expired_order.py): it cancels what is left of it and places it anew at the rate of the market.
-- An order that may not have been placed is looked for at the exchange by another service
-- (core/failed_order.py). Both read the balance of the exchange (data/balance.py) and cut volumes to
-- its decimal places (*/precision_by_currency.py).
--
-- Files:
--   Prelude         names of the libraries, tests on numbers, and lists over the native numbers
--   Enums           enums/currency.py, enums/currency_pair.py, enums/exchange.py
--   Currencies      utils/currency_utils.py, utils/exchange_utils.py and the currency_utils.py of
--                   the five exchanges; the laws of the tables are in PairLaws, ExchangeLaws and
--                   Spelling
--   OrderBook/Search, Insert, Book, Update
--                   analysis/binary_search.py and the methods of data/order_book.py, each with its
--                   laws in modules below it
--   Listener        services/arbitrage_between_pair_subscription.py, data/arbitrage_wrapper.py,
--                   data/market_cap.py: the state and its constructors
--   Listener/Sync, Messages, Runs
--                   the reset and the synchronisation, `on_order_book_update`, and the runs of all
--                   threads with what they keep
--   Arbitrage       core/arbitrage_core.py: the caps on a volume and `adjust_price_by_order_book`
--   Precision       utils/string_utils.py, binance/precision_by_currency.py,
--                   huobi/precision_by_currency.py and the rounding of core/arbitrage_core.py
--   Balances        data/balance.py, data/balance_state.py and get_change of core/base_analysis.py;
--                   below it Parsed, `Balance.from_*` on the documents that the exchanges send
--   Orders          data/trade.py; below it Volume, Placing and Market (core/arbitrage_core.py,
--                   dao/deal_utils.py, dao/order_book_utils.py), Expired (core/expired_order.py),
--                   Failed (core/failed_order.py), Service (the queues of data_access/classes/ and
--                   the loops of services/), and the laws in Protocol, Laws, Searching, Selling and
--                   Service/Tracked
--   Sockets         the values of json.loads and the parsers of bittrex/socket_api.py,
--                   poloniex/socket_api.py, binance/socket_api.py and huobi/socket_api.py
--   Tests           the theorems at concrete inputs
--
-- Conventions. A price or a volume is a natural number that counts 0.00000001, the precision of the
-- exchanges, so that the comparisons and subtractions of Decimal are exact. `die_hard`, which ends
-- the process, is the outcome `died`; an exception that is raised before anything is assigned is
-- `raised`. A dict is a list of entries that is searched by key. A method that assigns to `self`
-- returns the new value. `None` is less than every number, as in Python 2. `sorted` is a stable
-- insertion sort. `binary_search` recurs on a shorter list, so that the length of the list bounds
-- the depth of its calls. Logging and printing are left out.
--
-- The threads of the listener are steps of one relation, `Step` of Listener/Runs, that interleave in
-- any order. A callback is one step, and a thread of the synchronisation is divided at the points
-- where it hands over: after it has fetched a book, after each round of the loop of
-- `update_from_queue`, and before it sets its flag. Within such a step no other thread runs; the
-- source has no locks, so that a switch inside of one is outside of this model. `print_top10` only
-- prints, and what stands after `die_hard` in its block is never reached. The fuel of `run_rounds`
-- is the number of rounds, which a theorem bounds by the length of the queue.
--
-- Volumes and prices of orders may be below zero, and a division may have more digits than 8: in
-- Precision, Balances and Orders a number is a count of a unit that is small enough for all numbers of
-- a run, and the operations of Python on its numbers that the code relies on are the record `Decimals`,
-- a parameter: products, quotients, float literals, str and float. The values of a JSON document are
-- a data type, and the readings of Python on them (Decimal(str(x)), long, int, ==) the record `Reader`,
-- a parameter as well; `Decimal(json)` is a parameter of Balances/Parsed. All of them are filled by
-- concrete functions in Tests.
--
-- A Decimal and a float of Python with one value are one number here. Which of the two the volume of an
-- order is stands beside it (`volume_type`), since executed_volume_updated and the purchase of
-- determine_maximum_volume_by_balance fail with a TypeError on one and the other; the type that a
-- rounding gives is read from outside, so that the theorems hold for both. The balances do not tell
-- them apart: ZERO_BALANCE, which is the float 0.0, is the number 0, and the TypeErrors of add_balance,
-- subtract_balance and the purchase on such a balance are outside of the model.
--
-- What an exchange, the cache and the clock answer in a call of the services is an argument. What the
-- call does to the world is a list of effects, which an exception does not take back, and a method that
-- changes an order in place returns the order as it is then. The while loops of process_failed_order
-- run on the list of the replies that come in, and `none` is a loop that still asks. A round of a
-- service is one step of `Rounds`, and the queues hold orders by value, as pickle does. A watch list
-- that is a set of redis would keep two equal copies of an order once; here it keeps both.
--
-- Not modelled: Trade.from_*, which read JSON documents; the connections of the
-- sockets, HTTP, the database and redis, which are other programs; the rest of the search for deals
-- (search_for_arbitrage and what it calls), the reports and the printing.
pub mod Prelude
pub mod Enums
pub mod Currencies
pub mod OrderBook
pub mod Listener
pub mod Arbitrage
pub mod Precision
pub mod Balances
pub mod Orders
pub mod Sockets
pub mod Tests
