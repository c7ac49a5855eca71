-- ===== src/OrderBook/Book.antt =====
-- The class `OrderBook` (data/order_book.py): its fields, `sort_by_price` and `_copy_order_book`,
-- and the messages that it takes (data/order_book_update.py).
pub mod Sort
use Prim.Native.String.{String}
use crypto_crawler.Prelude.{
  ℕ, Bool, true, false, Option, none, some, List, [], ◌∷◌, if◌then◌else◌, foldr,
}
use crypto_crawler.Currencies.ByExchange.{get_exchange_name_by_id}
use crypto_crawler.Currencies.PairNames.{get_pair_name_by_id}
use crypto_crawler.OrderBook.Search.{Deal, before_ask, before_bid}

-- What the attributes `exchange` and `pair_name` hold: a name, or after `_copy_order_book` a number.
pub data Label : Type 0 where
  name : String → Label
  number : ℕ → Label

pub record OrderBook : Type 0 where
  pub pair_id : ℕ
  pub pair_name : Label
  pub timest : ℕ
  pub ask : List Deal
  pub bid : List Deal
  pub exchange_id : ℕ
  pub exchange : Label
  pub sequence_id : Option ℕ

pub record OrderBookUpdate : Type 0 where
  pub sequence_id : ℕ
  pub sequence_id_end : Option ℕ
  pub bid : List Deal
  pub ask : List Deal
  pub timest_ms : ℕ
  pub trades_sell : List Deal
  pub trades_buy : List Deal

-- What `update` is given: a whole book or a change.
pub data Delta : Type 0 where
  snapshot : OrderBook → Delta
  change : OrderBookUpdate → Delta

-- `OrderBook.__init__`; `none` is the `KeyError` of an id that has no name.
unfoldable pub new_order_book : ℕ → ℕ → List Deal → List Deal → ℕ → Option ℕ → Option OrderBook
new_order_book pair_id timest sell_bids buy_bids exchange_id sequence_id =
    elim (get_pair_name_by_id pair_id) [
      | none ↦ none
      | some pair_name ↦ elim (get_exchange_name_by_id exchange_id) [
        | none ↦ none
        | some exchange ↦ some (record {
          pair_id = pair_id;
          pair_name = name pair_name;
          timest = timest;
          ask = sell_bids;
          bid = buy_bids;
          exchange_id = exchange_id;
          exchange = name exchange;
          sequence_id = sequence_id;
        })
      ]
    ]

-- `is_valid`: neither side is empty.
unfoldable pub is_valid : OrderBook → Bool
is_valid book = elim book.ask [
  | [] ↦ false
  | a ∷ asks ↦ elim book.bid [ [] ↦ false | b ∷ bids ↦ true ]
]

-- Python's `sorted`, which is stable: a deal goes in front of the later ones that do not come before
-- it.
unfoldable pub insert_sorted : (ℕ → ℕ → Bool) → Deal → List Deal → List Deal
insert_sorted before d [] = d ∷ []
insert_sorted before d (x ∷ xs) =
    if before x.price d.price then x ∷ insert_sorted before d xs else d ∷ (x ∷ xs)

unfoldable pub sorted : (ℕ → ℕ → Bool) → List Deal → List Deal
unfolding insert_sorted
sorted before = foldr (insert_sorted before) []

-- Bids with the highest price first, asks with the lowest first.
unfoldable pub sort_by_price : OrderBook → OrderBook
unfolding sorted
sort_by_price self = record self {
  bid = sorted before_bid self.bid;
  ask = sorted before_ask self.ask;
}

-- `_copy_order_book` stores the ids under `exchange` and `pair_name`.
unfoldable pub copy_order_book : OrderBook → OrderBook → OrderBook
copy_order_book self other_order_book = record self {
  timest = other_order_book.timest;
  exchange_id = other_order_book.exchange_id;
  exchange = number other_order_book.exchange_id;
  pair_id = other_order_book.pair_id;
  pair_name = number other_order_book.pair_id;
  ask = other_order_book.ask;
  bid = other_order_book.bid;
  sequence_id = other_order_book.sequence_id;
}
