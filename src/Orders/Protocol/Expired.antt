-- ===== src/Orders/Protocol/Expired.antt =====
-- `process_expired_order` (core/expired_order.py) follows the machine.
use crypto_crawler.Prelude.{
  ℤ, refl, ◌≢◌, inl, inr, if-elim, All, Bool, true, false, Option, none, some, List, [], ◌∷◌,
}
use crypto_crawler.OrderBook.Insert.{Outcome, done, died, raised}
use crypto_crawler.Precision.Interface.{Decimals}
use crypto_crawler.Orders.{Number, decimal, float, Trade, trade_eq, watch}
use crypto_crawler.Orders.Volume.{
  executed_volume_updated, take_executed, take_reported, take_left, subtract, with_result,
}
use crypto_crawler.Orders.Placing.{Answer, init_deal}
use crypto_crawler.Orders.Expired.{
  Venue, after_cancel, cancel_updated, with_open_orders, process_expired_order,
}
use crypto_crawler.Orders.Protocol.{
  standing, after_request, SameOrder, Sends, Accounted, Allowed, order_of,
  replace_by_market-Accounted,
}

-- The order that is left of a loop over the open orders.
abbrev Updated : Trade → Outcome (Bool × Trade) → Type 0
Updated o died = ⊥
Updated o raised = Unit
Updated o (done (u, o')) = SameOrder o o'

with_result-SameOrder :
    (o : Trade) (r : Outcome ℤ) (f : ℤ → Trade)
    → r ≢ died
    → ((n : ℤ) → SameOrder o (f n))
    → Updated o (with_result r f)
with_result-SameOrder o (done n) f alive h = h n
with_result-SameOrder o died f alive h = alive refl
with_result-SameOrder o raised f alive h = tt

subtract-ne-died : (s t : Number) (a b : ℤ) → subtract s t a b ≢ died
unfolding subtract
subtract-ne-died decimal decimal a b h = absurd cc
subtract-ne-died float float a b h = absurd cc
subtract-ne-died decimal float a b h = absurd cc
subtract-ne-died float decimal a b h = absurd cc

take_reported-SameOrder : (v : Option ℤ) (o : Trade) → Updated o (take_reported v o)
unfolding take_reported
take_reported-SameOrder none o = tt
take_reported-SameOrder (some e) o =
    with_result-SameOrder o _ _ (subtract-ne-died o.volume_type decimal o.volume e)
      (λ n. (refl, refl, refl, refl))

take_executed-SameOrder : (x o : Trade) → Updated o (take_executed x o)
unfolding take_executed take_left
take_executed-SameOrder x o =
    if-elim (Updated o) _ (take_reported x.executed_volume o) (take_left x.volume_type x.volume o)
      (take_reported-SameOrder x.executed_volume o)
      (with_result-SameOrder o _ _ (subtract-ne-died o.volume_type x.volume_type o.volume x.volume)
        (λ n. (refl, refl, refl, refl)))

executed_volume_updated-SameOrder :
    (orders : List Trade) (o : Trade) → Updated o (executed_volume_updated orders o)
unfolding executed_volume_updated
executed_volume_updated-SameOrder [] o = (refl, refl, refl, refl)
executed_volume_updated-SameOrder (x ∷ xs) o =
    if-elim (Updated o) (trade_eq x (some o)) (take_executed x o) (executed_volume_updated xs o)
      (take_executed-SameOrder x o) (executed_volume_updated-SameOrder xs o)

module _ (d : Decimals) (init : Trade → Outcome Answer) (exchange : Venue) (a : Trade) (b : Bool)
    (sends : Sends b init) where
  after_cancel-Accounted :
      (c : Bool) (o : Trade)
      → SameOrder a o
      → Accounted b a (after_request c) (after_cancel d init exchange c o)
  unfolding after_cancel
  after_cancel-Accounted false o h = (tt, ((h, tt), tt))
  after_cancel-Accounted true o h =
      replace_by_market-Accounted d init a b sends exchange.market watch (λ q. refl) (λ q. refl)
        (λ q. tt) o h

  cancel_updated-Accounted :
      (r : Outcome (Bool × Trade))
      → Updated a r
      → Accounted b a standing (cancel_updated d init exchange r)
  unfolding cancel_updated
  cancel_updated-Accounted died h = absurd h
  cancel_updated-Accounted raised h = (tt, tt)
  cancel_updated-Accounted (done (u, o)) h =
      let (ends, same) = after_cancel-Accounted exchange.cancelled o h in (ends, ((h, tt), same))

  with_open_orders-Accounted :
      (orders : Option (List Trade))
      → Accounted b a standing (with_open_orders d init exchange orders a)
  unfolding with_open_orders
  with_open_orders-Accounted none = (tt, (((refl, refl, refl, refl), tt), tt))
  with_open_orders-Accounted (some []) = (tt, tt)
  with_open_orders-Accounted (some (x ∷ xs)) =
      cancel_updated-Accounted _ (executed_volume_updated-SameOrder (x ∷ xs) a)

-- Whatever the exchange, the cache and the clock answer, process_expired_order asks to cancel an
-- order at most once, sends a replacement at most once and only when the exchange has cancelled
-- the order, saves at most what it has sent, and queues the order at most once and as the last
-- effect; every effect is about this order, of the same type, exchange, pair and deal. When it
-- returns, an order that the exchange refused to cancel is in the watch list, and an order that is
-- sent is saved and in the watch list. The process dies only between the cancelling and the
-- replacement.
pub process_expired_order-Accounted :
    (d : Decimals) (init : Trade → Outcome Answer) (exchange : Venue) (o : Trade)
    → Accounted true o standing (process_expired_order d init exchange o)
unfolding process_expired_order
process_expired_order-Accounted d init exchange o =
    with_open_orders-Accounted d init exchange o true (λ q. inl refl) exchange.open_orders

-- As the code stands, with the init_deal that begins with die_hard, process_expired_order never sends
-- and never saves an order, whatever the exchange, the cache and the clock answer.
pub process_expired_order-sends_nothing :
    (d : Decimals) (exchange : Venue) (o : Trade)
    → All
        (λ e. SameOrder o (order_of e) × Allowed false e)
        (process_expired_order d init_deal exchange o).1
unfolding process_expired_order init_deal
process_expired_order-sends_nothing d exchange o =
    (with_open_orders-Accounted d init_deal exchange o false (λ q. inr refl) exchange.open_orders).1
