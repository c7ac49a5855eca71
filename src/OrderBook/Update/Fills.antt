-- ===== src/OrderBook/Update/Fills.antt =====
-- `update` ends the process only for fills.
use crypto_crawler.Prelude.{ℕ, ◌≡◌, ◌≢◌, refl, true, false, Option, some, [], arith}
use crypto_crawler.OrderBook.Insert.{Outcome, done, died, raised, ◌>>=◌}
use crypto_crawler.OrderBook.Book.{OrderBook, OrderBookUpdate, Delta, snapshot, change}
use crypto_crawler.OrderBook.Update.{
  insert_asks, apply_orders, apply_fills, Order, outdated, in_order, gap, compare_sequence,
  by_sequence, update_for_poloniex, update_for_bittrex, update_for_binance, update_for_huobi,
  update,
}
use crypto_crawler.OrderBook.Update.Loops.{insert_asks-done, insert_bids-done}
use crypto_crawler.OrderBook.Update.Invariant.{update-cases}

-- A message that reports no fill of an ask.
abbrev pub HasNoAskFill : Delta → Type 0
HasNoAskFill (snapshot other) = Unit
HasNoAskFill (change delta) = delta.trades_sell ≡ []

compare_sequence-ne-died : (m n : Option ℕ) → compare_sequence m n ≢ died
unfolding compare_sequence
compare_sequence-ne-died m n = ground arith

by_sequence-ne-died :
    (book : OrderBook) (order : Outcome Order) (applied : Outcome OrderBook)
    → order ≢ died
    → applied ≢ died
    → by_sequence book order applied ≢ died
unfolding by_sequence
by_sequence-ne-died book (done outdated) applied h k e = cc
by_sequence-ne-died book (done gap) applied h k e = cc
by_sequence-ne-died book (done in_order) (done b) h k e = cc
by_sequence-ne-died book (done in_order) died h k e = k refl
by_sequence-ne-died book (done in_order) raised h k e = cc
by_sequence-ne-died book died applied h k e = h refl
by_sequence-ne-died book raised applied h k e = cc

apply_orders-done :
    (delta : OrderBookUpdate) (book : OrderBook)
    → (b : OrderBook) × (apply_orders delta book ≡ done b)
unfolding apply_orders
apply_orders-done delta book =
    let (ask, ea) = insert_asks-done delta.ask book.ask in
    let (bid, eb) = insert_bids-done delta.bid book.bid true in
    (record book { ask = ask; bid = bid }, rw (ea, eb))

apply_fills-done :
    (delta : OrderBookUpdate) (book : OrderBook)
    → delta.trades_sell ≡ []
    → (b : OrderBook) × (apply_fills delta book ≡ done b)
unfolding apply_fills insert_asks
apply_fills-done delta book none_sold =
    let (bid, eb) = insert_bids-done delta.trades_buy book.bid false in
    (record book { bid = bid }, rw (none_sold, eb))

orders_then_fills-ne-died :
    (delta : OrderBookUpdate) (book : OrderBook)
    → delta.trades_sell ≡ []
    → (apply_orders delta book >>= apply_fills delta) ≢ died
orders_then_fills-ne-died delta book none_sold e =
    let (mid, em) = apply_orders-done delta book in
    let (b, eb) = apply_fills-done delta mid none_sold in
    let both : (apply_orders delta book >>= apply_fills delta) ≡ done b = rw em eb in cc

apply_orders-ne-died : (delta : OrderBookUpdate) (book : OrderBook) → apply_orders delta book ≢ died
apply_orders-ne-died delta book e = let (b, eb) = apply_orders-done delta book in cc

raised-ne-died : {A : Type 0} → ◌≢◌ {A = Outcome A} raised died
raised-ne-died e = cc

module _ (book : OrderBook) where
  pub poloniex-ne-died : (delta : Delta) → update_for_poloniex book delta ≢ died
  unfolding update_for_poloniex
  poloniex-ne-died (snapshot other) = λ e. cc
  poloniex-ne-died (change delta) =
      by_sequence-ne-died book _ _
        (compare_sequence-ne-died book.sequence_id (some delta.sequence_id))
        (apply_orders-ne-died delta (record book { sequence_id = some delta.sequence_id }))

  bittrex-ne-died : (delta : Delta) → HasNoAskFill delta → update_for_bittrex book delta ≢ died
  unfolding update_for_bittrex
  bittrex-ne-died (snapshot other) h = λ e. cc
  bittrex-ne-died (change delta) h =
      by_sequence-ne-died book _ _
        (compare_sequence-ne-died book.sequence_id (some delta.sequence_id))
        (orders_then_fills-ne-died delta (record book { sequence_id = some delta.sequence_id }) h)

  binance-ne-died : (delta : Delta) → update_for_binance book delta ≢ died
  unfolding update_for_binance
  binance-ne-died (snapshot other) =
      by_sequence-ne-died book _ raised
        (compare_sequence-ne-died book.sequence_id other.sequence_id) raised-ne-died
  binance-ne-died (change delta) =
      by_sequence-ne-died book _ _
        (compare_sequence-ne-died book.sequence_id (some delta.sequence_id))
        (apply_orders-ne-died delta (record book { sequence_id = delta.sequence_id_end }))

  huobi-ne-died : (delta : Delta) → update_for_huobi book delta ≢ died
  unfolding update_for_huobi
  huobi-ne-died (snapshot other) = λ e. cc
  huobi-ne-died (change delta) = λ e. cc

-- No message ends the process on any book, sorted or not, unless it reports fills of asks.
pub update-ne-died :
    (book : OrderBook) (exchange_id : ℕ) (delta : Delta)
    → HasNoAskFill delta
    → update book exchange_id delta ≢ died
update-ne-died book exchange_id delta h =
    update-cases (λ r. r ≢ died) book delta (λ e. cc) (poloniex-ne-died book delta)
      (bittrex-ne-died book delta h) (binance-ne-died book delta) (huobi-ne-died book delta)
      exchange_id
