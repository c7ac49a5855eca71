-- ===== src/Listener.antt =====
-- `ArbitrageListener` (services/arbitrage_between_pair_subscription.py) with what it inherits from
-- `ArbitrageWrapper` (data/arbitrage_wrapper.py), the stage of data_access/sync_stage.py and
-- `MarketCap` (data/market_cap.py). Its threads take turns: a method that a thread runs is one step
-- here, and the two threads of a synchronisation are divided into the steps between which another
-- thread may run.
pub mod Sync
pub mod Messages
pub mod Runs
use crypto_crawler.Prelude.{ℕ, Bool, true, false, Option, none, some, List, []}
use crypto_crawler.OrderBook.Book.{OrderBook, Delta}

-- `ORDER_BOOK_SYNC_STAGES`
pub data Stage : Type 0 where
  unknown before_sync after_sync resetting : Stage

pub record MarketCap : Type 0 where
  pub max_volume_cap : ℕ
  pub min_volume_cap : ℕ
  pub min_price_cap : ℕ
  pub max_price_cap : ℕ
  pub pair_id : ℕ
  pub last_updated : ℕ

-- `NO_MAX_CAP_LIMIT` and `NO_MIN_CAP_LIMIT`
abbrev pub no_max_cap_limit : ℕ
no_max_cap_limit = 0

abbrev pub no_min_cap_limit : ℕ
no_min_cap_limit = 0

unfoldable pub new_market_cap : ℕ → ℕ → MarketCap
new_market_cap pair_id timest = record {
  max_volume_cap = no_max_cap_limit;
  min_volume_cap = no_min_cap_limit;
  min_price_cap = no_min_cap_limit;
  max_price_cap = no_max_cap_limit;
  pair_id = pair_id;
  last_updated = timest;
}

abbrev pub update_max_volume_cap : MarketCap → ℕ → MarketCap
update_max_volume_cap self max_limit = record self { max_volume_cap = max_limit }

-- Where a thread of `sync_sell_order_book` or `sync_buy_order_book` stands: before it fetches a
-- book, in the loop of `update_from_queue`, past that loop, or at its end.
pub data Thread : Type 0 where
  fetching draining drained ended : Thread

-- The fields for one of the two exchanges: `x_exchange_id`, whether `x_subscription` runs,
-- `order_book_x`, `x_order_book_synced` and `x_exchange_updates`, with x for buy or sell, and where
-- the thread of `sync_x_order_book` stands.
pub record Side : Type 0 where
  pub exchange_id : ℕ
  pub running : Bool
  pub order_book : Option OrderBook
  pub order_book_synced : Bool
  pub exchange_updates : List Delta
  pub thread : Thread

pub record Listener : Type 0 where
  pub pair_id : ℕ
  pub buy : Side
  pub sell : Side
  pub stage : Stage
  pub update_balance_run_flag : Bool
  pub update_min_cap_run_flag : Bool
  pub deal_cap : MarketCap

pub data Which : Type 0 where
  buying selling : Which

abbrev pub side_of : Which → Listener → Side
side_of buying self = self.buy
side_of selling self = self.sell

abbrev pub set_side : Which → Side → Listener → Listener
set_side buying side self = record self { buy = side }
set_side selling side self = record self { sell = side }

-- The constructors of a side and of the listener; nothing has run yet.
unfoldable pub new_side : ℕ → Side
new_side exchange_id = record {
  exchange_id = exchange_id;
  running = false;
  order_book = none;
  order_book_synced = false;
  exchange_updates = [];
  thread = ended;
}

unfoldable pub new_listener : ℕ → ℕ → ℕ → ℕ → Listener
unfolding new_side new_market_cap
new_listener pair_id buy_exchange_id sell_exchange_id timest = record {
  pair_id = pair_id;
  buy = new_side buy_exchange_id;
  sell = new_side sell_exchange_id;
  stage = unknown;
  update_balance_run_flag = false;
  update_min_cap_run_flag = false;
  deal_cap = update_max_volume_cap (new_market_cap pair_id timest) no_max_cap_limit;
}

-- `disconnect` of both subscriptions.
unfoldable pub shutdown_subscriptions : Listener → Listener
shutdown_subscriptions self = record self {
  sell = record self.sell { running = false };
  buy = record self.buy { running = false };
}
