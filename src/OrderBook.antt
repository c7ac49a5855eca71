-- ===== src/OrderBook.antt =====
-- The order book (data/order_book.py, data/deal.py, data/order_book_update.py) and the search for
-- an insertion point (analysis/binary_search.py).
pub mod Search
pub mod Insert
pub mod Book
pub mod Update
