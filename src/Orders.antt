-- ===== src/Orders.antt =====
-- The orders of the program (data/trade.py) and what the two services that look after them do with
-- an order (core/expired_order.py, core/failed_order.py).
pub mod Volume
pub mod Placing
pub mod Market
pub mod Expired
pub mod Failed
pub mod Service
pub mod Protocol
pub mod Searching
pub mod Laws
pub mod Selling
use Prim.Native.String.{String}
use text.Mathlib.Text.{◌==◌ as str_eq}
use crypto_crawler.Prelude.{ℕ, ℤ, Bool, true, false, ◌&&◌, Option, none, some, List, [], ◌∷◌, ◌==◌}
use crypto_crawler.Enums.DealType
use crypto_crawler.Enums.DealType.{DealType}
use crypto_crawler.OrderBook.Insert.{Outcome, done, died, raised}

-- The types of Python that the volume of an order has: `Decimal`, and the `float` that `truncate_float`
-- makes. `-` and `*` of one and the other are a `TypeError`.
pub data Number : Type 0 where
  decimal float : Number

-- `volume_type` is the type of `volume`. The price, and what an exchange lists as executed, are of the
-- type `Decimal`.
pub record Trade : Type 0 where
  pub trade_type : DealType
  pub exchange_id : ℕ
  pub pair_id : ℕ
  pub price : ℤ
  pub volume : ℤ
  pub volume_type : Number
  pub order_book_time : ℕ
  pub create_time : ℕ
  pub execute_time : Option ℕ
  pub order_id : Option String
  pub trade_id : Option String
  pub executed_volume : Option ℤ
  pub arbitrage_id : ℤ

-- `==` on texts and `None`.
abbrev pub same_text : Option String → Option String → Bool
same_text none none = true
same_text (some a) (some b) = str_eq a b
same_text _ _ = false

abbrev pub same_type : DealType → DealType → Bool
unfolding DealType.id
same_type a b = DealType.id a == DealType.id b

-- `Trade.__eq__`
unfoldable pub trade_eq : Trade → Option Trade → Bool
unfolding same_type
trade_eq self none = false
trade_eq self (some other) =
    same_text self.order_id other.order_id
    && same_type self.trade_type other.trade_type
    && (self.exchange_id == other.exchange_id)
    && (self.pair_id == other.pair_id)

-- `Trade.set_order_id`
unfoldable pub set_order_id : Trade → Option String → Trade
set_order_id self order_id = record self { order_id = order_id }

-- What a service does to the world with an order: it asks the exchange to cancel it, with the answer,
-- or to place it, puts it into the watch list, hands it over to be saved or to be looked at as failed, and writes its
-- details to the database. A queue holds a copy of the order.
pub data Effect : Type 0 where
  cancel : Bool → Trade → Effect
  place watch save fail update_details : Trade → Effect

-- How a call ends, with the order as it is then, and the effects that it had before, in their order.
abbrev pub Run : Type 0
Run = Outcome Trade × List Effect

abbrev pub finish : Trade → Run
finish order = (done order, [])

abbrev pub raise : Run
raise = (raised, [])

abbrev pub emit : Effect → Run → Run
emit e run = (run.0, e ∷ run.1)
