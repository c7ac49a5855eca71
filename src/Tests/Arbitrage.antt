-- ===== src/Tests/Arbitrage.antt =====
-- Examples for the volume and the price of a deal (core/arbitrage_core.py).
use crypto_crawler.Prelude.{ℕ, ◌*◌, ◌≢◌, refl, some, List, [], ◌∷◌, arith}
use crypto_crawler.OrderBook.Search.{Deal, before_bid}
use crypto_crawler.OrderBook.Insert.Refinement.{bid_order}
use crypto_crawler.Listener.{MarketCap}
use crypto_crawler.Arbitrage.{adjust_price_by_order_book, capped_volume}
use crypto_crawler.Arbitrage.Price.{IsDeepEnough, adjust_price_by_order_book-IsDeepEnough}
use crypto_crawler.Arbitrage.Caps.{Capped, capped_volume-Capped}

abbrev deal : ℕ → ℕ → Deal
deal p v = record { price = p; volume = v }

abbrev bids : List Deal
bids = deal 90 5000 ∷ deal 80 7000 ∷ deal 70 9000 ∷ []

bids-ne-nil : bids ≢ []
bids-ne-nil e = cc

-- 5000 is not enough for twice 4000, 12000 is: the price is 80.
adjust_price_by_order_book-IsDeepEnough_example : IsDeepEnough before_bid bids (2 * 4000) (some 80)
unfolding adjust_price_by_order_book
adjust_price_by_order_book-IsDeepEnough_example =
    adjust_price_by_order_book-IsDeepEnough before_bid bid_order bids 4000
      ((refl, (refl, tt)), ((refl, tt), (tt, tt))) bids-ne-nil (omega arith)

abbrev cap : MarketCap
cap = record {
  max_volume_cap = 6000;
  min_volume_cap = 1000;
  min_price_cap = 0;
  max_price_cap = 0;
  pair_id = 1;
  last_updated = 0;
}

capped_volume-Capped_example : Capped cap 8000 (some 6000)
unfolding capped_volume
capped_volume-Capped_example = capped_volume-Capped cap 8000
