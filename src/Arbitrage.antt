-- ===== src/Arbitrage.antt =====
-- The volume and the price of a deal (core/arbitrage_core.py): the caps on its volume, and the price
-- that is deep enough in a side of a book for twice its volume.
pub mod Price
pub mod Caps
use crypto_crawler.Prelude.{
  ℕ, ◌+◌, ◌*◌, Option, none, some, List, [], ◌∷◌, ltb, ◌==◌, if◌then◌else◌,
}
use crypto_crawler.OrderBook.Search.{Deal}
use crypto_crawler.Listener.{MarketCap, no_max_cap_limit}

-- The loop, on the orders from `idx` on.
unfoldable pub price_loop : ℕ → List Deal → ℕ → Option ℕ → Option ℕ
price_loop max_volume [] acc_volume new_price = new_price
price_loop max_volume (d ∷ orders) acc_volume new_price =
    let rest = price_loop max_volume orders (acc_volume + d.volume) (some d.price) in
    if ltb acc_volume max_volume then rest else new_price

-- `none` stands for the price -10, which no order has.
unfoldable pub adjust_price_by_order_book : List Deal → ℕ → Option ℕ
unfolding price_loop
adjust_price_by_order_book orders min_volume = price_loop (2 * min_volume) orders 0 none

-- `adjust_minimum_volume_by_trading_cap`; `none` is the volume -1.
unfoldable pub adjust_minimum_volume_by_trading_cap : MarketCap → Option ℕ → Option ℕ
adjust_minimum_volume_by_trading_cap deal_cap none = none
adjust_minimum_volume_by_trading_cap deal_cap (some min_volume) =
    if ltb min_volume deal_cap.min_volume_cap then none else some min_volume

-- `adjust_maximum_volume_by_trading_cap`; -1 is below every cap.
unfoldable pub adjust_maximum_volume_by_trading_cap : MarketCap → Option ℕ → Option ℕ
adjust_maximum_volume_by_trading_cap deal_cap none = none
adjust_maximum_volume_by_trading_cap deal_cap (some volume) =
    if deal_cap.max_volume_cap == no_max_cap_limit
    then some volume
    else if ltb deal_cap.max_volume_cap volume
    then some deal_cap.max_volume_cap
    else some volume

-- The two caps as `search_for_arbitrage` applies them.
unfoldable pub capped_volume : MarketCap → ℕ → Option ℕ
unfolding adjust_minimum_volume_by_trading_cap adjust_maximum_volume_by_trading_cap
capped_volume deal_cap min_volume =
    adjust_maximum_volume_by_trading_cap deal_cap
      (adjust_minimum_volume_by_trading_cap deal_cap (some min_volume))
