-- ===== src/Orders/Expired.antt =====
-- `process_expired_order` (core/expired_order.py): what happens to an order of the watch list.
use crypto_crawler.Prelude.{ℕ, ◌*◌, ◌/◌, Bool, true, false, Option, none, some, List, [], ◌∷◌}
use crypto_crawler.OrderBook.Insert.{Outcome, done, died, raised}
use crypto_crawler.Precision.Interface.{Decimals}
use crypto_crawler.Orders.{Trade, Effect, Run, cancel, watch, finish, raise, emit}
use crypto_crawler.Orders.Volume.{executed_volume_updated}
use crypto_crawler.Orders.Placing.{Answer}
use crypto_crawler.Orders.Market.{Market, replace_by_market}

-- What the exchange answers: its open orders, `none` for a failure, and whether it cancels.
pub record Venue : Type 0 where
  pub open_orders : Option (List Trade)
  pub cancelled : Bool
  pub market : Market

module _ (decimals : Decimals) (init : Trade → Outcome Answer) (exchange : Venue) where
  -- After the request to cancel.
  unfoldable pub after_cancel : Bool → Trade → Run
  unfolding replace_by_market
  after_cancel false expired_order = emit (watch expired_order) (finish expired_order)
  after_cancel true expired_order =
      replace_by_market decimals init exchange.market watch expired_order

  -- Whether the volume could be updated makes no difference but to the log.
  unfoldable pub cancel_updated : Outcome (Bool × Trade) → Run
  unfolding after_cancel
  cancel_updated died = (died, [])
  cancel_updated raised = raise
  cancel_updated (done (updated, expired_order)) =
      emit (cancel exchange.cancelled expired_order) (after_cancel exchange.cancelled expired_order)

  unfoldable pub with_open_orders : Option (List Trade) → Trade → Run
  unfolding cancel_updated executed_volume_updated
  with_open_orders none expired_order = emit (watch expired_order) (finish expired_order)
  with_open_orders (some []) expired_order = finish expired_order
  with_open_orders (some (deal ∷ open_orders)) expired_order =
      cancel_updated (executed_volume_updated (deal ∷ open_orders) expired_order)

  -- `process_expired_order`
  unfoldable pub process_expired_order : Trade → Run
  unfolding with_open_orders
  process_expired_order expired_order = with_open_orders exchange.open_orders expired_order

-- `compute_time_key`, on whole numbers
unfoldable pub compute_time_key : ℕ → ℕ → ℕ
compute_time_key timest rounding_interval = rounding_interval * (timest / rounding_interval)

abbrev watch_if : Option Trade → List Effect → List Effect
watch_if none effects = effects
watch_if (some order) effects = watch order ∷ effects

-- `add_orders_to_watch_list`, on a pair of orders that may be missing.
unfoldable pub add_orders_to_watch_list : Option (Option Trade × Option Trade) → List Effect
add_orders_to_watch_list none = []
add_orders_to_watch_list (some (deal_1, deal_2)) = watch_if deal_1 (watch_if deal_2 [])
