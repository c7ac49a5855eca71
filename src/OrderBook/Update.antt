-- ===== src/OrderBook/Update.antt =====
-- The methods `update_for_*` and `update` of `OrderBook` (data/order_book.py).
pub mod Loops
pub mod Invariant
pub mod Fills
pub mod Sequence
pub mod Effect
use crypto_crawler.Prelude.{
  ℕ, ◌+◌, Bool, true, false, not, Option, none, some, List, [], ◌∷◌, ◌==◌, leb, if◌then◌else◌,
}
use crypto_crawler.Enums.Exchange
use crypto_crawler.Enums.Exchange.{Exchange}
use crypto_crawler.Currencies.Dict.{get_by_exchange}
use crypto_crawler.OrderBook.Search.{Deal}
use crypto_crawler.OrderBook.Insert.{
  Outcome, done, died, raised, ◌>>=◌, insert_new_ask_preserve_order, insert_new_bid_preserve_order,
}
use crypto_crawler.OrderBook.Book.{
  OrderBook, OrderBookUpdate, Delta, snapshot, change, sort_by_price, copy_order_book,
}

-- `STATUS` (enums/status.py)
pub data Status : Type 0 where
  success failure : Status

-- `for ask in asks: self.insert_new_ask_preserve_order(ask, overwrite_volume)`
unfoldable pub insert_asks : List Deal → Bool → List Deal → Outcome (List Deal)
unfolding insert_new_ask_preserve_order
insert_asks [] overwrite_volume side = done side
insert_asks (d ∷ ds) overwrite_volume side =
    insert_new_ask_preserve_order side d overwrite_volume >>= insert_asks ds overwrite_volume

-- `for bid in bids: self.insert_new_bid_preserve_order(bid, overwrite_volume)`
unfoldable pub insert_bids : List Deal → Bool → List Deal → Outcome (List Deal)
unfolding insert_new_bid_preserve_order
insert_bids [] overwrite_volume side = done side
insert_bids (d ∷ ds) overwrite_volume side =
    insert_new_bid_preserve_order side d overwrite_volume >>= insert_bids ds overwrite_volume

-- The loops over the orders of a change, which every exchange has.
unfoldable pub apply_orders : OrderBookUpdate → OrderBook → Outcome OrderBook
unfolding insert_asks insert_bids
apply_orders delta self = do
  ask ← insert_asks delta.ask true self.ask
  bid ← insert_bids delta.bid true self.bid
  done (record self { ask = ask; bid = bid })

-- The loops over the fills of a change, at Bittrex.
unfoldable pub apply_fills : OrderBookUpdate → OrderBook → Outcome OrderBook
unfolding insert_asks insert_bids
apply_fills delta self = do
  ask ← insert_asks delta.trades_sell false self.ask
  bid ← insert_bids delta.trades_buy false self.bid
  done (record self { ask = ask; bid = bid })

-- How a number compares with the book's: `None` is less than every number in Python 2.
pub data Order : Type 0 where
  outdated in_order gap : Order

unfoldable pub compare_sequence : Option ℕ → Option ℕ → Outcome Order
compare_sequence none none = done outdated
compare_sequence none (some n) = raised
compare_sequence (some s) none = done outdated
compare_sequence (some s) (some n) =
    if leb n s then done outdated else if s + 1 == n then done in_order else done gap

-- What the three methods for changes do with that: an outdated message is ignored, a gap is a
-- failure, and a message in order is applied.
unfoldable pub by_sequence :
    OrderBook → Outcome Order → Outcome OrderBook → Outcome (Status × OrderBook)
by_sequence self order applied = order >>= elim [
  | outdated ↦ done (success, self)
  | gap ↦ done (failure, self)
  | in_order ↦ applied >>= λ book. done (success, book)
]

-- A whole book replaces the fields, and is sorted.
unfoldable pub replace_by : OrderBook → OrderBook → Outcome (Status × OrderBook)
unfolding sort_by_price copy_order_book
replace_by self other = done (success, sort_by_price (copy_order_book self other))

unfoldable pub update_for_poloniex : OrderBook → Delta → Outcome (Status × OrderBook)
unfolding replace_by by_sequence compare_sequence apply_orders
update_for_poloniex self (snapshot other) = replace_by self other
update_for_poloniex self (change delta) =
    by_sequence self (compare_sequence self.sequence_id (some delta.sequence_id))
      (apply_orders delta (record self { sequence_id = some delta.sequence_id }))

unfoldable pub update_for_bittrex : OrderBook → Delta → Outcome (Status × OrderBook)
unfolding replace_by by_sequence compare_sequence apply_orders apply_fills
update_for_bittrex self (snapshot other) = replace_by self other
update_for_bittrex self (change delta) =
    by_sequence self (compare_sequence self.sequence_id (some delta.sequence_id)) (
      apply_orders delta (record self { sequence_id = some delta.sequence_id })
      >>= apply_fills delta)

-- A whole book has no `sequence_id_end`, so that one in order raises.
unfoldable pub update_for_binance : OrderBook → Delta → Outcome (Status × OrderBook)
unfolding by_sequence compare_sequence apply_orders
update_for_binance self (snapshot other) =
    by_sequence self (compare_sequence self.sequence_id other.sequence_id) raised
update_for_binance self (change delta) =
    by_sequence self (compare_sequence self.sequence_id (some delta.sequence_id))
      (apply_orders delta (record self { sequence_id = delta.sequence_id_end }))

-- A change has no `timest`, so that it raises.
unfoldable pub update_for_huobi : OrderBook → Delta → Outcome (Status × OrderBook)
unfolding replace_by
update_for_huobi self (snapshot other) = replace_by self other
update_for_huobi self (change delta) = raised

-- The methods that `update` chooses from.
unfoldable pub method_by_exchange :
    List (Exchange × (OrderBook → Delta → Outcome (Status × OrderBook)))
unfolding update_for_poloniex update_for_bittrex update_for_binance update_for_huobi
method_by_exchange =
    (Exchange.poloniex, update_for_poloniex)
    ∷ (Exchange.bittrex, update_for_bittrex)
    ∷ (Exchange.binance, update_for_binance)
    ∷ (Exchange.huobi, update_for_huobi)
    ∷ []

-- `update`; an exchange with no method, such as Kraken, is a `KeyError`.
unfoldable pub update : OrderBook → ℕ → Delta → Outcome (Status × OrderBook)
unfolding method_by_exchange get_by_exchange
update self exchange_id order_book_delta = elim (get_by_exchange method_by_exchange exchange_id) [
  | none ↦ raised
  | some method ↦ method self order_book_delta
]
