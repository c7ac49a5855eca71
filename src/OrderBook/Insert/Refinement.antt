-- ===== src/OrderBook/Insert/Refinement.antt =====
-- Both insertions implement the map from prices to volumes.
use crypto_crawler.Prelude.{Bool, List, arith}
use crypto_crawler.OrderBook.Search.{Deal, before_ask, before_bid}
use crypto_crawler.OrderBook.Search.Rank.{IsPriceOrder, IsSorted, binary_search-eq-rank}
use crypto_crawler.OrderBook.Insert.{insert_new_ask_preserve_order, insert_new_bid_preserve_order}
use crypto_crawler.OrderBook.Insert.Levels.{volume_at, ask_level, bid_level, Refines}
use crypto_crawler.OrderBook.Insert.Edits.{ask-Edits, bid-Edits, Edits-Refines}

pub ask_order : IsPriceOrder before_ask
ask_order = record {
  irrefl = λ p. ground arith;
  trans = λ p q r a b. ground arith;
  total = λ p q n a. ground arith;
}

pub bid_order : IsPriceOrder before_bid
bid_order = record {
  irrefl = λ p. ground arith;
  trans = λ p q r a b. ground arith;
  total = λ p q n a. ground arith;
}

-- On a sorted ask side with no price twice, a message has exactly the effect on its level that
-- `ask_level` states: the level is removed, replaced, lowered or added, or the process dies, all
-- other levels quote what they did, and the side stays sorted.
pub insert_new_ask-Refines :
    (ask : List Deal) (d : Deal) (overwrite : Bool)
    → IsSorted before_ask ask
    → Refines before_ask ask d.price
        (ask_level (volume_at ask d.price) d.volume overwrite)
        (insert_new_ask_preserve_order ask d overwrite)
unfolding insert_new_ask_preserve_order
insert_new_ask-Refines ask d overwrite s = rw (binary_search-eq-rank before_ask ask_order ask d s) (
    Edits-Refines before_ask ask_order ask d.price _ _
      (ask-Edits before_ask ask_order ask d overwrite s))

-- On a sorted bid side with no price twice, a message has exactly the effect on its level that
-- `bid_level` states: the level is removed, replaced or added, all other levels quote what they
-- did, and the side stays sorted.
pub insert_new_bid-Refines :
    (bid : List Deal) (d : Deal) (overwrite : Bool)
    → IsSorted before_bid bid
    → Refines before_bid bid d.price
        (bid_level (volume_at bid d.price) d.volume overwrite)
        (insert_new_bid_preserve_order bid d overwrite)
unfolding insert_new_bid_preserve_order
insert_new_bid-Refines bid d overwrite s = rw (binary_search-eq-rank before_bid bid_order bid d s) (
    Edits-Refines before_bid bid_order bid d.price _ _
      (bid-Edits before_bid bid_order bid d overwrite s))
