-- ===== src/Listener/Sync.antt =====
-- A reset and the synchronisation of the two books: `reset_arbitrage_state`, `sync_order_books` and
-- the methods that they call.
pub mod Drain
use crypto_crawler.Prelude.{
  ℕ, Bool, true, false, not, ◌&&◌, ◌||◌, Option, none, some, List, [], ◌∷◌, ◌==◌, if◌then◌else◌,
}
use crypto_crawler.Enums.Exchange
use crypto_crawler.Enums.Exchange.{Exchange}
use crypto_crawler.OrderBook.Insert.{Outcome, done, died, raised, ◌>>=◌}
use crypto_crawler.OrderBook.Book.{OrderBook, Delta, new_order_book, sort_by_price}
use crypto_crawler.OrderBook.Update.{Status, success, failure, update}
use crypto_crawler.Listener.{
  Stage, unknown, before_sync, after_sync, resetting, Thread, fetching, draining, drained, ended,
  Side, Listener, shutdown_subscriptions,
}

-- What `reset_arbitrage_state` sets for one exchange before it subscribes: an empty queue, a book
-- with no orders and no synchronisation; its thread of `sync_order_books` is to start.
unfoldable pub init_side : ℕ → ℕ → Side → Outcome Side
unfolding new_order_book
init_side pair_id cur_timest_sec side =
    elim (new_order_book pair_id cur_timest_sec [] [] side.exchange_id none) [
      | none ↦ raised
      | some book ↦ done (record side {
        order_book = some book;
        order_book_synced = false;
        exchange_updates = [];
        thread = fetching;
      })
    ]

-- `reset_arbitrage_state` up to the start of the threads; it has set the stage RESETTING, and
-- cleared both flags, which `_init_arbitrage_state` sets again.
unfoldable pub init_reset : ℕ → Listener → Outcome Listener
unfolding init_side
init_reset cur_timest_sec self = do
  sell ← init_side self.pair_id cur_timest_sec self.sell
  buy ← init_side self.pair_id cur_timest_sec self.buy
  done (record self {
    sell = sell;
    buy = buy;
    stage = before_sync;
    update_balance_run_flag = true;
    update_min_cap_run_flag = true;
  })

-- `exchange_id in [EXCHANGE.BINANCE, EXCHANGE.BITTREX]`
unfoldable pub binance_or_bittrex : ℕ → Bool
unfolding Exchange.id
binance_or_bittrex exchange_id =
    (exchange_id == Exchange.id Exchange.binance) || (exchange_id == Exchange.id Exchange.bittrex)

-- The first lines of `subscribe`, in the thread of a subscription: at each of the four exchanges it
-- ends the process if the subscription runs.
unfoldable pub subscribe : Side → Outcome Side
subscribe side = if side.running then died else done (record side { running = true })

-- The beginning of `sync_sell_order_book` and `sync_buy_order_book`, up to their loop; the book is
-- what `get_order_book` returns.
unfoldable pub sync_fetch : Option OrderBook → Side → Side
unfolding binance_or_bittrex
sync_fetch order_book side =
    if binance_or_bittrex side.exchange_id
    then elim order_book [
      | none ↦ record side { order_book = none; thread = ended }
      | some book ↦ record side { order_book = some (sort_by_price book); thread = draining }
    ]
    else record side { thread = drained }

-- How the two methods end when `update_from_queue` is a failure.
unfoldable pub sync_failed : Side → Side
sync_failed side = record side { order_book_synced = false; thread = ended }

-- What the result of `order_book.update` does in `update_from_queue`. An exception ends the thread.
unfoldable pub sync_updated : Side → Outcome (Status × OrderBook) → Outcome Side
unfolding sync_failed
sync_updated side (done (success, book)) = done (record side { order_book = some book })
sync_updated side (done (failure, book)) =
    done (sync_failed (record side { order_book = some book }))
sync_updated side died = died
sync_updated side raised = done (record side { thread = ended })

-- One round of the loop of `update_from_queue`.
unfoldable pub sync_round : Bool → Side → Outcome Side
unfolding sync_updated sync_failed
sync_round both_running side =
    if not both_running then done (sync_failed side) else elim side.exchange_updates [
      | [] ↦ done (record side { thread = drained })
      | d ∷ ds ↦
          let rest : Side = record side { exchange_updates = ds } in
          elim side.order_book [
            | none ↦ done (record rest { thread = ended })
            | some book ↦ sync_updated rest (update book rest.exchange_id d)
          ]
    ]

-- The last line of the two methods.
unfoldable pub sync_finish : Side → Side
sync_finish side = record side { order_book_synced = true; thread = ended }

-- The end of `sync_order_books`, once both threads have ended.
unfoldable pub synced_stage : Listener → Listener
synced_stage self =
    if self.sell.order_book_synced && self.buy.order_book_synced
    then record self { stage = after_sync }
    else self

-- What `reset_arbitrage_state` does then: unless the stage is AFTER_SYNC, it disconnects and has to
-- begin again.
unfoldable pub finish_reset : Stage → Listener → Listener
unfolding shutdown_subscriptions
finish_reset after_sync self = self
finish_reset unknown self = shutdown_subscriptions self
finish_reset before_sync self = shutdown_subscriptions self
finish_reset resetting self = shutdown_subscriptions self

unfoldable pub join : Listener → Listener
unfolding synced_stage finish_reset
join self = let synced = synced_stage self in finish_reset synced.stage synced
