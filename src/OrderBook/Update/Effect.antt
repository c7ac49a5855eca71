-- ===== src/OrderBook/Update/Effect.antt =====
-- What a change in order makes of the quotes of a book, at Bittrex.
use crypto_crawler.Prelude.{ℕ, ◌+◌, ◌≡◌, subst, inl, inr, Bool, true, false, some, List, arith}
use crypto_crawler.OrderBook.Search.{Deal}
use crypto_crawler.OrderBook.Insert.{done, ◌>>=◌, >>=-eq-done, done-injective}
use crypto_crawler.OrderBook.Insert.Levels.{volume_at, ask_level, bid_level}
use crypto_crawler.OrderBook.Book.{OrderBook, OrderBookUpdate, change}
use crypto_crawler.OrderBook.Update.{
  success, insert_asks, insert_bids, apply_orders, apply_fills, compare_sequence,
  update_for_bittrex,
}
use crypto_crawler.OrderBook.Update.Loops.{levels, insert_asks-Quotes, insert_bids-Quotes}
use crypto_crawler.OrderBook.Update.Invariant.{IsOrdered, apply_orders-IsOrdered, moved}
use crypto_crawler.OrderBook.Update.Sequence.{by_sequence-success, outdated-le}

-- The quotes of both sides after a list of asks and one of bids.
abbrev pub HasQuotes : OrderBook → List Deal → List Deal → Bool → OrderBook → Type 0
HasQuotes book asks bids overwrite book' =
    ((p : ℕ)
      → levels ask_level asks overwrite p (volume_at book.ask p) ≡ done (volume_at book'.ask p))
    × ((p : ℕ)
        → levels bid_level bids overwrite p (volume_at book.bid p) ≡ done (volume_at book'.bid p))

apply_orders-HasQuotes :
    (u : OrderBookUpdate) (book : OrderBook) {book' : OrderBook}
    → IsOrdered book
    → apply_orders u book ≡ done book'
    → HasQuotes book u.ask u.bid true book'
unfolding apply_orders
apply_orders-HasQuotes u book h e =
    let (ask, ea, e') = >>=-eq-done (insert_asks u.ask true book.ask) _ e in
    let (bid, eb, e'') = >>=-eq-done (insert_bids u.bid true book.bid) _ e' in
    subst (HasQuotes book u.ask u.bid true) (done-injective _ _ e'') (
      (insert_asks-Quotes u.ask true book.ask h.asks ea).1,
      (insert_bids-Quotes u.bid true book.bid h.bids eb).1,
    )

apply_fills-HasQuotes :
    (u : OrderBookUpdate) (book : OrderBook) {book' : OrderBook}
    → IsOrdered book
    → apply_fills u book ≡ done book'
    → HasQuotes book u.trades_sell u.trades_buy false book'
unfolding apply_fills
apply_fills-HasQuotes u book h e =
    let (ask, ea, e') = >>=-eq-done (insert_asks u.trades_sell false book.ask) _ e in
    let (bid, eb, e'') = >>=-eq-done (insert_bids u.trades_buy false book.bid) _ e' in
    subst (HasQuotes book u.trades_sell u.trades_buy false) (done-injective _ _ e'') (
      (insert_asks-Quotes u.trades_sell false book.ask h.asks ea).1,
      (insert_bids-Quotes u.trades_buy false book.bid h.bids eb).1,
    )

-- At every price, a book after a change at Bittrex quotes what the orders at that price, and then the
-- fills at that price, make of the old quote.
abbrev pub IsUpdated : OrderBookUpdate → OrderBook → OrderBook → Type 0
IsUpdated u book book' =
    ((p : ℕ)
      → (levels ask_level u.ask true p (volume_at book.ask p)
          >>= levels ask_level u.trades_sell false p)
        ≡ done (volume_at book'.ask p))
    × ((p : ℕ)
        → (levels bid_level u.bid true p (volume_at book.bid p)
            >>= levels bid_level u.trades_buy false p)
          ≡ done (volume_at book'.bid p))

-- When `update_for_bittrex` takes the change with the next number as a success, on a sorted book, the
-- book quotes at every price what the orders of the change at that price, and then its fills at that
-- price, make of the old quote.
pub update_for_bittrex-IsUpdated :
    (book : OrderBook) (u : OrderBookUpdate) (s : ℕ) {book' : OrderBook}
    → IsOrdered book
    → book.sequence_id ≡ some s
    → u.sequence_id ≡ s + 1
    → update_for_bittrex book (change u) ≡ done (success, book')
    → IsUpdated u book book'
unfolding update_for_bittrex
update_for_bittrex-IsUpdated book u s h number next e =
    elim (by_sequence-success book (compare_sequence book.sequence_id (some u.sequence_id)) _ _ e) [
      | inl (o, same) ↦
          let le = outdated-le s u.sequence_id (rw number at o) in absurd (omega arith)
      | inr (o, went) ↦
          let (mid, em, ef) = >>=-eq-done (apply_orders u _) (apply_fills u) went in
          let orders = apply_orders-HasQuotes u _ (moved h) em in
          let fills = apply_fills-HasQuotes u mid (apply_orders-IsOrdered u _ (moved h) em) ef in
          (λ p. rw (orders.0 p) (fills.0 p), λ p. rw (orders.1 p) (fills.1 p))
    ]
