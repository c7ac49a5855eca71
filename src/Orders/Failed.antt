-- ===== src/Orders/Failed.antt =====
-- `process_failed_order` (core/failed_order.py): an order that could not be placed, or seems so, is
-- looked for at the exchange, and placed anew where it is not found.
use Prim.Native.String.{String}
use crypto_crawler.Prelude.{
  ℕ, ◌+◌, ◌-◌, ℤ, ltb_ℤ, Bool, not, ◌&&◌, Option, none, some, ◌>>=◌, List, [], ◌∷◌, ltb, leb, ◌==◌,
  if◌then◌else◌,
}
use crypto_crawler.OrderBook.Insert.{Outcome}
use crypto_crawler.Precision.Interface.{Decimals}
use crypto_crawler.Orders.{Trade, Run, watch, fail, update_details, same_type, finish, emit}
use crypto_crawler.Orders.Placing.{Answer}
use crypto_crawler.Orders.Market.{Market, replace_by_market}

-- `abs(a - b)`
abbrev pub distance : ℕ → ℕ → ℕ
distance a b = (a - b) + (b - a)

abbrev pub same_number : ℤ → ℤ → Bool
same_number a b = not (ltb_ℤ a b) && not (ltb_ℤ b a)

-- The condition of `try_to_set_order_id`.
unfoldable pub looks_like : Trade → Trade → Bool
unfolding same_type
looks_like order every_order =
    (order.pair_id == every_order.pair_id)
    && same_type order.trade_type every_order.trade_type
    && same_number order.price every_order.price
    && leb order.create_time every_order.create_time
    && ltb (distance order.create_time every_order.create_time) 15

-- One round of the loop of `try_to_set_order_id`.
unfoldable pub take_order_id : Trade → Trade → Trade
unfolding looks_like
take_order_id every_order order =
    if looks_like order every_order
    then record order { order_id = every_order.order_id; create_time = every_order.create_time }
    else order

-- `try_to_set_order_id`: the loop goes on after it has found an order, with the time of that order.
unfoldable pub try_to_set_order_id : List Trade → Trade → Trade
unfolding take_order_id
try_to_set_order_id [] order = order
try_to_set_order_id (every_order ∷ open_orders) order =
    try_to_set_order_id open_orders (take_order_id every_order order)

-- `search_in_open_orders` and `search_in_order_history`, on the reply of the exchange: the order as
-- it is then, and `none` where the status is a failure.
unfoldable pub search_orders : Option (List Trade) → Trade → Option Trade
unfolding try_to_set_order_id
search_orders none order = none
search_orders (some []) order = some order
search_orders (some (every_order ∷ orders)) order =
    some (try_to_set_order_id (every_order ∷ orders) order)

abbrev or_else : Option Trade → Option Trade → Option Trade
or_else (some order) later = some order
or_else none later = later

-- The loop that asks again after a failure, on the replies that come one after another; `none` where
-- they are all failures and the loop goes on.
unfoldable pub search_until : List (Option (List Trade)) → Trade → Option Trade
unfolding search_orders
search_until [] order = none
search_until (reply ∷ replies) order =
    or_else (search_orders reply order) (search_until replies order)

module _ (decimals : Decimals) (init : Trade → Outcome Answer) (market : Market) where
  -- After the search in the history, by the order id.
  unfoldable pub by_history : Option String → Trade → Run
  unfolding replace_by_market
  by_history (some order_id) failed_order = emit (update_details failed_order) (finish failed_order)
  by_history none failed_order = replace_by_market decimals init market fail failed_order

  -- After the search in the open orders, by the order id.
  unfoldable pub by_open : List (Option (List Trade)) → Option String → Trade → Option Run
  unfolding search_until by_history
  by_open history (some order_id) failed_order =
      some (emit (update_details failed_order) (emit (watch failed_order) (finish failed_order)))
  by_open history none failed_order = do
    order ← search_until history failed_order
    some (by_history order.order_id order)

  -- `process_failed_order`, on the replies for its open orders and for its history; `none` while it
  -- still asks.
  unfoldable pub process_failed_order :
      List (Option (List Trade)) → List (Option (List Trade)) → Trade → Option Run
  unfolding search_until by_open
  process_failed_order open_orders history failed_order = do
    order ← search_until open_orders failed_order
    by_open history order.order_id order
