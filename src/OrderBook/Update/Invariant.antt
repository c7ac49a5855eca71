-- ===== src/OrderBook/Update/Invariant.antt =====
-- `update` keeps both sides sorted.
use crypto_crawler.Prelude.{ℕ, ◌≡◌, ap, subst, true, false, Option, none, some}
use crypto_crawler.Enums.Exchange
use crypto_crawler.Currencies.Check.{get_by_id-cases}
use crypto_crawler.OrderBook.Search.{before_ask, before_bid}
use crypto_crawler.OrderBook.Search.Rank.{IsSorted}
use crypto_crawler.OrderBook.Insert.{Outcome, done, died, raised, >>=-eq-done, done-injective}
use crypto_crawler.OrderBook.Insert.Levels.{volume_at}
use crypto_crawler.OrderBook.Insert.Refinement.{ask_order, bid_order}
use crypto_crawler.OrderBook.Book.{
  OrderBook, OrderBookUpdate, Delta, snapshot, change, sort_by_price, copy_order_book,
}
use crypto_crawler.OrderBook.Book.Sort.{IsDistinct, IsSorted-sorted, volume_at-sorted}
use crypto_crawler.OrderBook.Update.{
  Status, insert_asks, insert_bids, apply_orders, apply_fills, Order, outdated, in_order, gap,
  by_sequence, replace_by, update_for_poloniex, update_for_bittrex, update_for_binance,
  update_for_huobi, method_by_exchange, update,
}
use crypto_crawler.OrderBook.Update.Loops.{insert_asks-Quotes, insert_bids-Quotes}

-- Asks from the lowest price on, bids from the highest on, and no price twice on a side.
pub record IsOrdered (book : OrderBook) : Type 0 where
  pub asks : IsSorted before_ask book.ask
  pub bids : IsSorted before_bid book.bid

-- A whole book that is received quotes no price twice on a side.
abbrev pub IsProper : Delta → Type 0
IsProper (snapshot other) = IsDistinct other.ask × IsDistinct other.bid
IsProper (change delta) = Unit

pub apply_orders-IsOrdered :
    (delta : OrderBookUpdate) (book : OrderBook) {book' : OrderBook}
    → IsOrdered book
    → apply_orders delta book ≡ done book'
    → IsOrdered book'
unfolding apply_orders
apply_orders-IsOrdered delta book h e =
    let (ask, ea, e') = >>=-eq-done (insert_asks delta.ask true book.ask) _ e in
    let (bid, eb, e'') = >>=-eq-done (insert_bids delta.bid true book.bid) _ e' in
    subst IsOrdered (done-injective _ _ e'') (record {
      asks = (insert_asks-Quotes delta.ask true book.ask h.asks ea).0;
      bids = (insert_bids-Quotes delta.bid true book.bid h.bids eb).0;
    })

apply_fills-IsOrdered :
    (delta : OrderBookUpdate) (book : OrderBook) {book' : OrderBook}
    → IsOrdered book
    → apply_fills delta book ≡ done book'
    → IsOrdered book'
unfolding apply_fills
apply_fills-IsOrdered delta book h e =
    let (ask, ea, e') = >>=-eq-done (insert_asks delta.trades_sell false book.ask) _ e in
    let (bid, eb, e'') = >>=-eq-done (insert_bids delta.trades_buy false book.bid) _ e' in
    subst IsOrdered (done-injective _ _ e'') (record {
      asks = (insert_asks-Quotes delta.trades_sell false book.ask h.asks ea).0;
      bids = (insert_bids-Quotes delta.trades_buy false book.bid h.bids eb).0;
    })

-- sort_by_price orders a book that quotes no price twice on a side, the bids with the highest price
-- first and the asks with the lowest, and each side keeps its quote at every price.
pub sort_by_price-IsOrdered :
    (book : OrderBook) (p : ℕ)
    → IsDistinct book.ask
    → IsDistinct book.bid
    → IsOrdered (sort_by_price book)
      × (volume_at (sort_by_price book).ask p ≡ volume_at book.ask p)
      × (volume_at (sort_by_price book).bid p ≡ volume_at book.bid p)
unfolding sort_by_price
sort_by_price-IsOrdered book p a b = (
  record {
    asks = IsSorted-sorted before_ask ask_order book.ask a;
    bids = IsSorted-sorted before_bid bid_order book.bid b;
  },
  volume_at-sorted before_ask book.ask p a,
  volume_at-sorted before_bid book.bid p b,
)

replace_by-IsOrdered :
    (book other : OrderBook)
    → IsDistinct other.ask
    → IsDistinct other.bid
    → IsOrdered (sort_by_price (copy_order_book book other))
unfolding sort_by_price copy_order_book
replace_by-IsOrdered book other a b = (sort_by_price-IsOrdered (copy_order_book book other) 0 a b).0

-- The invariant does not read the sequence number.
pub moved :
    {book : OrderBook} {n : Option ℕ} → IsOrdered book → IsOrdered (record book { sequence_id = n })
moved h = record { asks = h.asks; bids = h.bids }

-- The second part of a result.
pub snd-done :
    {A B : Type 0} (a a' : A) (b b' : B)
    → ◌≡◌ {A = Outcome (A × B)} (done (a, b)) (done (a', b'))
    → b ≡ b'
snd-done a a' b b' e = ap (λ r. r.1) (done-injective _ _ e)

by_sequence-IsOrdered :
    (book : OrderBook) (order : Outcome Order) (applied : Outcome OrderBook) {st : Status}
    {book' : OrderBook}
    → IsOrdered book
    → ((b : OrderBook) → applied ≡ done b → IsOrdered b)
    → by_sequence book order applied ≡ done (st, book')
    → IsOrdered book'
unfolding by_sequence
by_sequence-IsOrdered book (done outdated) applied h k e = subst IsOrdered (snd-done _ _ _ _ e) h
by_sequence-IsOrdered book (done gap) applied h k e = subst IsOrdered (snd-done _ _ _ _ e) h
by_sequence-IsOrdered book (done in_order) applied h k e =
    let (b, eb, e') = >>=-eq-done applied _ e in subst IsOrdered (snd-done _ _ _ _ e') (k b eb)
by_sequence-IsOrdered book died applied h k e = cc
by_sequence-IsOrdered book raised applied h k e = cc

replaced :
    (book other : OrderBook) {st : Status} {book' : OrderBook}
    → IsProper (snapshot other)
    → replace_by book other ≡ done (st, book')
    → IsOrdered book'
unfolding replace_by
replaced book other p e =
    subst IsOrdered (snd-done _ _ _ _ e) (replace_by-IsOrdered book other p.0 p.1)

-- A property of all results, for each of the four methods that `update` may choose.
module _ (P : Outcome (Status × OrderBook) → Type 0) (book : OrderBook) (delta : Delta)
    (unknown : P raised) (poloniex : P (update_for_poloniex book delta))
    (bittrex : P (update_for_bittrex book delta)) (binance : P (update_for_binance book delta))
    (huobi : P (update_for_huobi book delta)) where
  pub update-cases : (exchange_id : ℕ) → P (update book exchange_id delta)
  unfolding update
  update-cases exchange_id =
      get_by_id-cases
        (λ (method : Option (OrderBook → Delta → Outcome (Status × OrderBook))).
          P (elim method [ none ↦ raised | some m ↦ m book delta ]))
        Exchange.id method_by_exchange exchange_id unknown
        (poloniex, (bittrex, (binance, (huobi, tt))))

module _ (book : OrderBook) {st : Status} {book' : OrderBook} (h : IsOrdered book) where
  poloniex-IsOrdered :
      (delta : Delta)
      → IsProper delta
      → update_for_poloniex book delta ≡ done (st, book')
      → IsOrdered book'
  unfolding update_for_poloniex
  poloniex-IsOrdered (snapshot other) p e = replaced book other p e
  poloniex-IsOrdered (change delta) p e =
      by_sequence-IsOrdered book _ _ h (λ b. apply_orders-IsOrdered delta _ (moved h)) e

  bittrex-IsOrdered :
      (delta : Delta)
      → IsProper delta
      → update_for_bittrex book delta ≡ done (st, book')
      → IsOrdered book'
  unfolding update_for_bittrex
  bittrex-IsOrdered (snapshot other) p e = replaced book other p e
  bittrex-IsOrdered (change delta) p e =
      by_sequence-IsOrdered book _ _ h
        (λ b eb.
          let (mid, em, ef) = >>=-eq-done (apply_orders delta _) (apply_fills delta) eb in
          apply_fills-IsOrdered delta mid (apply_orders-IsOrdered delta _ (moved h) em) ef)
        e

  binance-IsOrdered :
      (delta : Delta)
      → IsProper delta
      → update_for_binance book delta ≡ done (st, book')
      → IsOrdered book'
  unfolding update_for_binance
  binance-IsOrdered (snapshot other) p e = by_sequence-IsOrdered book _ raised h (λ b eb. cc) e
  binance-IsOrdered (change delta) p e =
      by_sequence-IsOrdered book _ _ h (λ b. apply_orders-IsOrdered delta _ (moved h)) e

  huobi-IsOrdered :
      (delta : Delta)
      → IsProper delta
      → update_for_huobi book delta ≡ done (st, book')
      → IsOrdered book'
  unfolding update_for_huobi
  huobi-IsOrdered (snapshot other) p e = replaced book other p e
  huobi-IsOrdered (change delta) p e = cc

-- After every message that an exchange may send, both sides are sorted again, with no price twice,
-- if they were so before and a whole book that arrives quotes no price twice.
pub update-IsOrdered :
    (book : OrderBook) (exchange_id : ℕ) (delta : Delta) {st : Status} {book' : OrderBook}
    → IsOrdered book
    → IsProper delta
    → update book exchange_id delta ≡ done (st, book')
    → IsOrdered book'
update-IsOrdered book exchange_id delta {st = st} {book' = book'} h p =
    update-cases (λ r. r ≡ done (st, book') → IsOrdered book') book delta (λ e. cc)
      (poloniex-IsOrdered book h delta p) (bittrex-IsOrdered book h delta p)
      (binance-IsOrdered book h delta p) (huobi-IsOrdered book h delta p) exchange_id
