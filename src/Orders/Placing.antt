-- ===== src/Orders/Placing.antt =====
-- `init_deal` (dao/deal_utils.py) and `place_order_by_market_rate` (core/arbitrage_core.py).
use Prim.Native.String.{String}
use crypto_crawler.Prelude.{ℕ, ℤ, ltb_ℤ, Option, none, some, ◌>>=◌, if◌then◌else◌, []}
use crypto_crawler.OrderBook.Insert.{Outcome, done, died, raised}
use crypto_crawler.OrderBook.Book.{OrderBook}
use crypto_crawler.Precision.{round_volume}
use crypto_crawler.Precision.Interface.{Decimals}
use crypto_crawler.Balances.{Balance}
use crypto_crawler.Orders.{Number, Trade, Run, place, watch, save, finish, raise, emit}
use crypto_crawler.Orders.Volume.{determine_maximum_volume_by_balance}

-- The reply to an order that was sent: a failure; a success whose document `parse_order_id` reads,
-- with the id, or with `None` where the document is an error or has no id; or a success whose document
-- makes it raise.
pub data Answer : Type 0 where
  refused unreadable : Answer
  accepted : Option String → Answer

-- `init_deal` begins with `die_hard`, so that no order is sent.
unfoldable pub init_deal : Trade → Outcome Answer
init_deal trade_to_perform = died

-- What a call reads: the clock, and the type of the number that `round_volume` gives, which is `float`
-- where `truncate_float` has cut the text.
pub record Readings : Type 0 where
  pub balance_checked : ℕ
  pub created : ℕ
  pub executed : ℕ
  pub rounded_type : Number

-- What follows `init_deal`. After a failure `msg_queue.add_order` is called with one argument too
-- many, which is a `TypeError`. After a success the order is saved and watched with whatever id
-- `parse_order_id` returns, `None` included.
unfoldable pub after_init : Readings → OrderBook → Trade → Outcome Answer → Run
after_init clock order_book order died = (died, [])
after_init clock order_book order raised = raise
after_init clock order_book order (done refused) = emit (place order) raise
after_init clock order_book order (done unreadable) = emit (place order) raise
after_init clock order_book order (done (accepted order_id)) =
    let placed = record order {
      execute_time = some clock.executed;
      order_book_time = order_book.timest;
      order_id = order_id;
    } in
    emit (place order) (emit (save placed) (emit (watch placed) (finish placed)))

-- The volume that the balance and the exchange allow.
unfoldable pub market_volume : Decimals → Trade → Balance → Option ℤ
unfolding determine_maximum_volume_by_balance round_volume
market_volume decimals order balance = do
  max_volume ←
      determine_maximum_volume_by_balance decimals order.pair_id order.trade_type order.volume_type
        order.volume order.price balance
  round_volume decimals order.exchange_id max_volume order.pair_id

module _ (decimals : Decimals) (init : Trade → Outcome Answer) (clock : Readings) where
  unfoldable pub place_volume : Trade → ℤ → OrderBook → Option ℤ → Run
  unfolding after_init
  place_volume order min_volume order_book none = raise
  place_volume order min_volume order_book (some max_volume) =
      let sent = record order {
        volume = max_volume;
        volume_type = clock.rounded_type;
        create_time = clock.created;
      } in
      let answer = after_init clock order_book sent (init sent) in
      if ltb_ℤ max_volume min_volume then finish order else answer

  -- `place_order_by_market_rate`
  unfoldable pub place_order_by_market_rate : Trade → ℤ → Balance → OrderBook → Run
  unfolding place_volume market_volume
  place_order_by_market_rate order min_volume balance order_book =
      place_volume order min_volume order_book (market_volume decimals order balance)
