-- ===== src/Orders/Service.antt =====
-- The queues of orders (data_access/classes/priority_queue.py, data_access/classes/message_queue.py)
-- and the loops of the services that take from them (services/expired_order_processing.py,
-- services/failed_order_processing.py, services/order_saving.py).
pub mod Tracked
use crypto_crawler.Prelude.{Option, none, some, List, [], ◌∷◌, ◌++◌}
use crypto_crawler.OrderBook.Insert.{Outcome}
use crypto_crawler.Precision.Interface.{Decimals}
use crypto_crawler.Orders.{Trade, Effect, cancel, place, watch, save, fail, update_details, Run}
use crypto_crawler.Orders.Placing.{Answer}
use crypto_crawler.Orders.Market.{Market}
use crypto_crawler.Orders.Expired.{Venue, process_expired_order}
use crypto_crawler.Orders.Failed.{process_failed_order}

-- The watch list, the oldest first, the failed orders and the orders to be saved, the last one that
-- was added first, and the rows of the database.
pub record Queues : Type 0 where
  pub watched : List Trade
  pub failed : List Trade
  pub orders : List Trade
  pub rows : List Trade

-- `add_order_to_watch_queue`: the time at which an order is added is its rank.
unfoldable pub add_order_to_watch_queue : Trade → List Trade → List Trade
add_order_to_watch_queue order queue = queue ++ order ∷ []

-- `get_oldest_order`
unfoldable pub get_oldest_order : List Trade → Option (Trade × List Trade)
get_oldest_order [] = none
get_oldest_order (order ∷ queue) = some (order, queue)

-- `add_order`: `lpush`.
unfoldable pub add_order : Trade → List Trade → List Trade
add_order order queue = order ∷ queue

-- `get_next_order`: `lpop`, at the same end.
unfoldable pub get_next_order : List Trade → Option (Trade × List Trade)
get_next_order [] = none
get_next_order (order ∷ queue) = some (order, queue)

-- What an effect does to the queues and the database; the exchange is not part of them.
unfoldable pub apply_effect : Effect → Queues → Queues
unfolding add_order_to_watch_queue add_order
apply_effect (cancel answer order) q = q
apply_effect (place order) q = q
apply_effect (watch order) q = record q { watched = add_order_to_watch_queue order q.watched }
apply_effect (save order) q = record q { orders = add_order order q.orders }
apply_effect (fail order) q = record q { failed = add_order order q.failed }
apply_effect (update_details order) q = record q { rows = order ∷ q.rows }

unfoldable pub apply_effects : List Effect → Queues → Queues
unfolding apply_effect
apply_effects [] q = q
apply_effects (e ∷ es) q = apply_effects es (apply_effect e q)

abbrev pub effects_of : Option Run → List Effect
effects_of none = []
effects_of (some run) = run.1

-- A round of `process_placed_orders`.
unfoldable pub saved_taken : Option (Trade × List Trade) → Queues → Queues
saved_taken none q = q
saved_taken (some (order, queue)) q = record q { orders = queue; rows = order ∷ q.rows }

unfoldable pub saving_round : Queues → Queues
unfolding saved_taken get_next_order
saving_round q = saved_taken (get_next_order q.orders) q

module _ (decimals : Decimals) (init : Trade → Outcome Answer) where
  -- A round of `process_expired_orders`, with the order that it takes.
  unfoldable pub expired_taken : Venue → Option (Trade × List Trade) → Queues → Queues
  unfolding apply_effects process_expired_order
  expired_taken exchange none q = q
  expired_taken exchange (some (order, queue)) q =
      apply_effects (process_expired_order decimals init exchange order).1
        (record q { watched = queue })

  unfoldable pub expired_round : Venue → Queues → Queues
  unfolding expired_taken get_oldest_order
  expired_round exchange q = expired_taken exchange (get_oldest_order q.watched) q

  -- A round of `process_failed_orders`, with the replies for the open orders and for the history.
  unfoldable pub failed_taken :
      Market
      → List (Option (List Trade))
      → List (Option (List Trade))
      → Option (Trade × List Trade)
      → Queues
      → Queues
  unfolding apply_effects process_failed_order
  failed_taken market open_orders history none q = q
  failed_taken market open_orders history (some (order, queue)) q =
      apply_effects
        (effects_of (process_failed_order decimals init market open_orders history order))
        (record q { failed = queue })

  unfoldable pub failed_round :
      Market → List (Option (List Trade)) → List (Option (List Trade)) → Queues → Queues
  unfolding failed_taken get_next_order
  failed_round market open_orders history q =
      failed_taken market open_orders history (get_next_order q.failed) q

  -- The rounds of the three services, in any order and with any answers.
  pub data Rounds : Queues → Queues → Type 0 where
    start : {q : Queues} → Rounds q q
    expired :
        {q q' : Queues} (exchange : Venue) → Rounds (expired_round exchange q) q' → Rounds q q'
    failing :
        {q q' : Queues} (market : Market) (open_orders history : List (Option (List Trade)))
        → Rounds (failed_round market open_orders history q) q'
        → Rounds q q'
    saving : {q q' : Queues} → Rounds (saving_round q) q' → Rounds q q'
