-- ===== src/Orders/Market.antt =====
-- How an order is placed anew at the rate of the market, as `process_expired_order`
-- (core/expired_order.py) and `process_failed_order` (core/failed_order.py) both end.
use crypto_crawler.Prelude.{
  ℕ, ◌*◌, ℤ, pos, ◌-ℤ◌, pos_part, Bool, true, false, ◌||◌, Option, none, some, List, length, ◌==◌,
  if◌then◌else◌,
}
use crypto_crawler.Enums.DealType.{DealType}
use crypto_crawler.OrderBook.Search.{Deal}
use crypto_crawler.OrderBook.Insert.{Outcome, done, died, raised}
use crypto_crawler.OrderBook.Book.{OrderBook}
use crypto_crawler.Arbitrage.{adjust_price_by_order_book}
use crypto_crawler.Precision.Interface.{Decimals}
use crypto_crawler.Balances.{Balance, balance_expired}
use crypto_crawler.Orders.{Trade, Effect, Run, finish, raise, emit}
use crypto_crawler.Orders.Volume.{compute_min_cap_from_ticker}
use crypto_crawler.Orders.Placing.{Answer, Readings, place_order_by_market_rate}

-- What the exchange, the cache and the clock answer: the ask of the ticker, the book, the book that
-- the cache holds, and the balance, each `none` where there is none.
pub record Market : Type 0 where
  pub ticker : Option ℤ
  pub order_book : Option OrderBook
  pub prev_order_book : Option OrderBook
  pub balance : Option Balance
  pub clock : Readings

-- `len(set(now).intersection(before))`: `Deal` defines `__eq__` and no `__hash__`, so that a set
-- finds a deal only as the same object, and the objects of a cached book are made by pickle.
unfoldable pub number_of_same : List Deal → List Deal → ℕ
number_of_same now before = 0

-- `is_order_book_expired`. Where it is to answer yes, it gives the arguments of
-- `log_dublicative_order_book` in another order than that takes them, and the call ends in an
-- `AttributeError`.
unfoldable pub is_order_book_expired : OrderBook → Option OrderBook → Outcome Bool
unfolding number_of_same
is_order_book_expired order_book none = done false
is_order_book_expired order_book (some prev) =
    if (length order_book.ask == number_of_same order_book.ask prev.ask)
      || (length order_book.bid == number_of_same order_book.bid prev.bid)
    then raised
    else done false

-- `BALANCE_EXPIRED_THRESHOLD`, in seconds
abbrev pub balance_expired_threshold : ℕ
balance_expired_threshold = 60

module _ (decimals : Decimals) where
  -- -10 where there is no price.
  unfoldable pub price_or_default : Option ℕ → ℤ
  unfolding ◌-ℤ◌
  price_or_default none = pos 0 -ℤ pos (10 * decimals.one)
  price_or_default (some p) = pos p

  -- The side that an order meets.
  unfoldable pub orders_against : OrderBook → DealType → List Deal
  orders_against order_book DealType.sell = order_book.bid
  orders_against order_book _ = order_book.ask

  -- `adjust_price_by_order_book` of the side that the order meets; a volume below zero takes no
  -- order, as zero does.
  unfoldable pub market_price : OrderBook → Trade → ℤ
  unfolding price_or_default orders_against adjust_price_by_order_book
  market_price order_book order =
      let orders = orders_against order_book order.trade_type in
      price_or_default (adjust_price_by_order_book orders (pos_part order.volume))

module _ (decimals : Decimals) (init : Trade → Outcome Answer) (market : Market)
    (requeue : Trade → Effect) where
  -- With the price set, on the balance of the cache.
  unfoldable pub with_balance : Trade → ℤ → OrderBook → Option Balance → Run
  unfolding balance_expired place_order_by_market_rate
  with_balance order min_volume order_book none = raise
  with_balance order min_volume order_book (some balance) =
      if balance_expired balance market.clock.balance_checked balance_expired_threshold
      then emit (requeue order) raise
      else place_order_by_market_rate decimals init market.clock order min_volume balance order_book

  unfoldable pub with_fresh_book : Trade → ℤ → OrderBook → Outcome Bool → Run
  unfolding market_price with_balance
  with_fresh_book order min_volume order_book died = (died, List.[])
  with_fresh_book order min_volume order_book raised = raise
  with_fresh_book order min_volume order_book (done true) = emit (requeue order) (finish order)
  with_fresh_book order min_volume order_book (done false) =
      with_balance (record order { price = market_price decimals order_book order }) min_volume
        order_book market.balance

  unfoldable pub with_book : Trade → ℤ → Option OrderBook → Run
  unfolding with_fresh_book is_order_book_expired
  with_book order min_volume none = emit (requeue order) (finish order)
  with_book order min_volume (some order_book) =
      with_fresh_book order min_volume order_book
        (is_order_book_expired order_book market.prev_order_book)

  unfoldable pub with_cap : Trade → Option ℤ → Run
  unfolding with_book
  with_cap order none = raise
  with_cap order (some min_volume) = with_book order min_volume market.order_book

  unfoldable pub with_ticker : Trade → Option ℤ → Run
  unfolding with_cap compute_min_cap_from_ticker
  with_ticker order none = emit (requeue order) (finish order)
  with_ticker order (some ask) =
      with_cap order (compute_min_cap_from_ticker decimals order.pair_id (some ask))

  unfoldable pub replace_by_market : Trade → Run
  unfolding with_ticker
  replace_by_market order = with_ticker order market.ticker
