-- ===== src/Enums/DealType.antt =====
-- The class `DEAL_TYPE` (enums/deal_type.py).
use Prim.Native.String.{String}
use crypto_crawler.Prelude.{ℕ, Option, List, [], ◌∷◌}
use crypto_crawler.Currencies.Dict.{get_by_id}

pub data DealType : Type 0 where
  sell buy arbitrage reverse debug : DealType

-- The number of each.
unfoldable pub id : DealType → ℕ
id DealType.sell = 1
id DealType.buy = 2
id DealType.arbitrage = 3
id DealType.reverse = 4
id DealType.debug = 100500

unfoldable pub deal_type_names : List (DealType × String)
deal_type_names =
    (DealType.buy, "Buy")
    ∷ (DealType.sell, "Sell")
    ∷ (DealType.arbitrage, "Arbitrage")
    ∷ (DealType.reverse, "Reverse")
    ∷ (DealType.debug, "DEBUGGING MODE ACTIVE!")
    ∷ []

-- `get_order_type_by_id`
unfoldable pub get_order_type_by_id : ℕ → Option String
unfolding id deal_type_names get_by_id
get_order_type_by_id deal_id = get_by_id id deal_type_names deal_id
