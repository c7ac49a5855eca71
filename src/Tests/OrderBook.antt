-- ===== src/Tests/OrderBook.antt =====
-- Examples for the order book (data/order_book.py) and its search (analysis/binary_search.py).
use crypto_crawler.Prelude.{ℕ, ◌+◌, ◌≡◌, ◌≢◌, refl, true, false, some, List, [], ◌∷◌, All, arith}
use crypto_crawler.OrderBook.Search.{Deal, before_ask, before_bid, binary_search}
use crypto_crawler.OrderBook.Search.Rank.{IsSorted, cmp_of, rank, binary_search-eq-rank}
use crypto_crawler.OrderBook.Insert.{
  done, died, insert_new_ask_preserve_order, insert_new_bid_preserve_order,
}
use crypto_crawler.OrderBook.Insert.Levels.{volume_at, ask_level, bid_level, Refines}
use crypto_crawler.OrderBook.Insert.Refinement.{
  ask_order, insert_new_ask-Refines, insert_new_bid-Refines,
}
use crypto_crawler.OrderBook.Book.{name, OrderBook, OrderBookUpdate, change, sort_by_price}
use crypto_crawler.OrderBook.Book.Sort.{IsDistinct}
use crypto_crawler.OrderBook.Update.{
  success, failure, insert_asks, insert_bids, update, update_for_bittrex, update_for_poloniex,
  update_for_binance,
}
use crypto_crawler.OrderBook.Update.Loops.{Quotes, insert_asks-Quotes, insert_bids-Quotes}
use crypto_crawler.OrderBook.Update.Invariant.{IsOrdered, update-IsOrdered, sort_by_price-IsOrdered}
use crypto_crawler.OrderBook.Update.Effect.{IsUpdated, update_for_bittrex-IsUpdated}
use crypto_crawler.OrderBook.Update.Fills.{update-ne-died}
use crypto_crawler.OrderBook.Update.Sequence.{
  apply_changes, IsGapless, update_for_bittrex-IsGapless, update_for_poloniex-IsGapless,
  update_for_binance-straddled,
}

abbrev deal : ℕ → ℕ → Deal
deal p v = record { price = p; volume = v }

abbrev asks : List Deal
asks = deal 100 5000 ∷ deal 200 7000 ∷ deal 300 9000 ∷ deal 400 2000 ∷ []

abbrev bids : List Deal
bids = deal 90 5000 ∷ deal 80 7000 ∷ deal 70 9000 ∷ []

asks-IsSorted : IsSorted before_ask asks
asks-IsSorted = ((refl, (refl, (refl, tt))), ((refl, (refl, tt)), ((refl, tt), (tt, tt))))

bids-IsSorted : IsSorted before_bid bids
bids-IsSorted = ((refl, (refl, tt)), ((refl, tt), (tt, tt)))

binary_search-eq-rank_example :
    binary_search (cmp_of before_ask) asks (deal 250 1) ≡ rank before_ask asks (deal 250 1)
binary_search-eq-rank_example =
    binary_search-eq-rank before_ask ask_order asks (deal 250 1) asks-IsSorted

insert_new_ask-Refines_example :
    Refines before_ask asks 200
      (ask_level (volume_at asks 200) 3000 false)
      (insert_new_ask_preserve_order asks (deal 200 3000) false)
insert_new_ask-Refines_example = insert_new_ask-Refines asks (deal 200 3000) false asks-IsSorted

insert_new_bid-Refines_example :
    Refines before_bid bids 75
      (bid_level (volume_at bids 75) 3000 true)
      (insert_new_bid_preserve_order bids (deal 75 3000) true)
insert_new_bid-Refines_example = insert_new_bid-Refines bids (deal 75 3000) true bids-IsSorted

abbrev unsorted : List Deal
unsorted = deal 300 9000 ∷ deal 100 5000 ∷ deal 200 7000 ∷ []

unsorted-IsDistinct : IsDistinct unsorted
unsorted-IsDistinct =
    ((λ e. omega (arith, e), (λ e. omega (arith, e), tt)), ((λ e. omega (arith, e), tt), (tt, tt)))

-- The message replaces one level, removes another and adds a third.
abbrev orders : List Deal
orders = deal 200 8000 ∷ deal 300 0 ∷ deal 250 6000 ∷ []

insert_asks-Quotes_example :
    Quotes before_ask ask_level orders true asks
      (deal 100 5000 ∷ deal 200 8000 ∷ deal 250 6000 ∷ deal 400 2000 ∷ [])
unfolding insert_asks
insert_asks-Quotes_example = insert_asks-Quotes orders true asks asks-IsSorted refl

insert_bids-Quotes_example :
    Quotes before_bid bid_level
      (deal 80 0 ∷ deal 85 6000 ∷ [])
      true
      bids
      (deal 90 5000 ∷ deal 85 6000 ∷ deal 70 9000 ∷ [])
unfolding insert_bids
insert_bids-Quotes_example =
    insert_bids-Quotes (deal 80 0 ∷ deal 85 6000 ∷ []) true bids bids-IsSorted refl

abbrev book_at : ℕ → List Deal → List Deal → OrderBook
book_at s ask bid = record {
  pair_id = 1;
  pair_name = name "BTC_TO_DASH";
  timest = 0;
  ask = ask;
  bid = bid;
  exchange_id = 3;
  exchange = name "BITTREX";
  sequence_id = some s;
}

-- A change with fills of bids only.
abbrev change_at : ℕ → OrderBookUpdate
change_at s = record {
  sequence_id = s;
  sequence_id_end = some (s + 4);
  bid = deal 90 0 ∷ [];
  ask = deal 250 6000 ∷ [];
  timest_ms = 0;
  trades_sell = [];
  trades_buy = deal 70 2000 ∷ [];
}

abbrev next_book : OrderBook
next_book =
    book_at 11 (deal 100 5000 ∷ deal 200 7000 ∷ deal 250 6000 ∷ deal 300 9000 ∷ deal 400 2000 ∷ [])
      (deal 80 7000 ∷ deal 70 2000 ∷ [])

book-IsOrdered : IsOrdered (book_at 10 asks bids)
book-IsOrdered = record { asks = asks-IsSorted; bids = bids-IsSorted }

sort_by_price-IsOrdered_example :
    IsOrdered (sort_by_price (book_at 10 unsorted unsorted))
    × (volume_at (sort_by_price (book_at 10 unsorted unsorted)).ask 200 ≡ volume_at unsorted 200)
    × (volume_at (sort_by_price (book_at 10 unsorted unsorted)).bid 200 ≡ volume_at unsorted 200)
sort_by_price-IsOrdered_example =
    sort_by_price-IsOrdered (book_at 10 unsorted unsorted) 200 unsorted-IsDistinct
      unsorted-IsDistinct

update-IsOrdered_example : IsOrdered next_book
unfolding update
update-IsOrdered_example =
    update-IsOrdered (book_at 10 asks bids) 3 (change (change_at 11)) book-IsOrdered tt refl

update-ne-died_example : update (book_at 10 asks bids) 3 (change (change_at 11)) ≢ died
update-ne-died_example = update-ne-died (book_at 10 asks bids) 3 (change (change_at 11)) refl

update_for_bittrex-IsGapless_example : IsGapless 10 (change_at 9 ∷ change_at 11 ∷ []) (some 11)
unfolding apply_changes update_for_bittrex
update_for_bittrex-IsGapless_example =
    update_for_bittrex-IsGapless (change_at 9 ∷ change_at 11 ∷ []) (book_at 10 asks bids) 10
      {book' = next_book} refl refl

update_for_poloniex-IsGapless_example : IsGapless 10 (change_at 9 ∷ change_at 11 ∷ []) (some 11)
unfolding apply_changes update_for_poloniex
update_for_poloniex-IsGapless_example =
    update_for_poloniex-IsGapless (change_at 9 ∷ change_at 11 ∷ []) (book_at 10 asks bids) 10
      {book' = record next_book { bid = deal 80 7000 ∷ deal 70 9000 ∷ [] }} refl refl

-- An event of Binance.
abbrev event : ℕ → ℕ → OrderBookUpdate
event first last = record (change_at first) { sequence_id_end = some last }

-- The book is at 10, the first event has the numbers 8 to 12, and two more go on to 20.
update_for_binance-straddled_example :
    (update_for_binance (book_at 10 asks bids) (change (event 8 12))
      ≡ done (success, book_at 10 asks bids))
    × All
        (λ v.
          update_for_binance (book_at 10 asks bids) (change v)
          ≡ done (failure, book_at 10 asks bids))
        (event 13 15 ∷ event 16 20 ∷ [])
update_for_binance-straddled_example =
    update_for_binance-straddled (book_at 10 asks bids) (event 8 12)
      (event 13 15 ∷ event 16 20 ∷ []) 10 12 refl (omega arith) refl (omega arith)
      (refl, 15, refl, omega arith, (refl, 20, refl, omega arith, tt))

update_for_bittrex-IsUpdated_example : IsUpdated (change_at 11) (book_at 10 asks bids) next_book
unfolding update_for_bittrex
update_for_bittrex-IsUpdated_example =
    update_for_bittrex-IsUpdated (book_at 10 asks bids) (change_at 11) 10 book-IsOrdered refl refl
      refl
