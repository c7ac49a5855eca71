-- ===== src/Sockets/Parsers.antt =====
-- The parsers of the messages (bittrex/socket_api.py, poloniex/socket_api.py, binance/socket_api.py,
-- huobi/socket_api.py). `none` is an exception.
use Prim.Native.String.{String}
use crypto_crawler.Prelude.{
  ℕ, ◌++◌, ◌||◌, Option, none, some, ◌>>=◌, List, [], ◌∷◌, ◌==◌, if◌then◌else◌,
}
use crypto_crawler.Enums.Exchange
use crypto_crawler.Enums.Exchange.{Exchange}
use crypto_crawler.OrderBook.Search.{Deal}
use crypto_crawler.OrderBook.Book.{OrderBook, OrderBookUpdate, new_order_book}
use crypto_crawler.Sockets.{Json, Reader, iterate, get_field, get_item, contains, each, read_deal}

module _ (reader : Reader) where
  -- `Deal(entry["R"], entry["Q"])`
  unfoldable pub bittrex_deal : Json → Option Deal
  unfolding get_field read_deal
  bittrex_deal entry = do
    price ← get_field entry "R"
    volume ← get_field entry "Q"
    read_deal reader price volume

  -- `parse_socket_order_book_bittrex`
  unfoldable pub parse_socket_order_book_bittrex : ℕ → Json → ℕ → Option OrderBook
  unfolding get_field iterate bittrex_deal new_order_book Exchange.id
  parse_socket_order_book_bittrex timest_ms order_book_snapshot pair_id = do
    nonce ← get_field order_book_snapshot "N"
    sequence_id ← reader.to_long nonce
    sells ← get_field order_book_snapshot "S"
    sell_list ← iterate sells
    asks ← each bittrex_deal sell_list
    buys ← get_field order_book_snapshot "Z"
    buy_list ← iterate buys
    bids ← each bittrex_deal buy_list
    new_order_book pair_id timest_ms asks bids (Exchange.id Exchange.bittrex) (some sequence_id)

  -- By the type of the update: 0 adds and 2 updates, 1 removes, and others are only logged.
  unfoldable pub by_type : ℕ → Deal → List Deal
  by_type type_update new_deal =
      if (type_update == 0) || (type_update == 2)
      then new_deal ∷ []
      else if type_update == 1
      then record { price = new_deal.price; volume = 0 } ∷ []
      else []

  unfoldable pub typed_entry : Json → Deal → Option (List Deal)
  unfolding get_field by_type
  typed_entry entry new_deal = do
    ty ← get_field entry "TY"
    type_update ← reader.to_int ty
    some (by_type type_update new_deal)

  -- What one entry of the sells or the buys adds to its side.
  unfoldable pub bittrex_entry : Json → Option (List Deal)
  unfolding contains bittrex_deal typed_entry
  bittrex_entry entry = do
    new_deal ← bittrex_deal entry
    typed ← contains entry "TY"
    (if typed then typed_entry entry new_deal else some [])

  unfoldable pub bittrex_side : List Json → Option (List Deal)
  unfolding bittrex_entry
  bittrex_side [] = some []
  bittrex_side (entry ∷ entries) = do
    deals ← bittrex_entry entry
    rest ← bittrex_side entries
    some (deals ++ rest)

  -- `parse_socket_update_bittrex`: the fills are read and left.
  unfoldable pub parse_socket_update_bittrex : ℕ → Json → Option OrderBookUpdate
  unfolding get_field iterate bittrex_side
  parse_socket_update_bittrex timest_ms order_book_delta = do
    nonce ← get_field order_book_delta "N"
    sequence_id ← reader.to_long nonce
    sells ← get_field order_book_delta "S"
    buys ← get_field order_book_delta "Z"
    fills ← get_field order_book_delta "f"
    sell_list ← iterate sells
    asks ← bittrex_side sell_list
    buy_list ← iterate buys
    bids ← bittrex_side buy_list
    some (record {
      sequence_id = sequence_id;
      sequence_id_end = none;
      bid = bids;
      ask = asks;
      timest_ms = timest_ms;
      trades_sell = [];
      trades_buy = [];
    })

  -- `Deal(a[0], a[1])`
  unfoldable pub pair_deal : Json → Option Deal
  unfolding get_item read_deal
  pair_deal entry = do
    price ← get_item entry 0
    volume ← get_item entry 1
    read_deal reader price volume

  -- `parse_socket_update_binance`
  unfoldable pub parse_socket_update_binance : ℕ → Json → Option OrderBookUpdate
  unfolding get_field iterate pair_deal
  parse_socket_update_binance timest_ms order_book_delta = do
    first ← get_field order_book_delta "U"
    sequence_id ← reader.to_long first
    last ← get_field order_book_delta "u"
    sequence_id_end ← reader.to_long last
    a ← get_field order_book_delta "a"
    a_list ← iterate a
    asks ← each pair_deal a_list
    b ← get_field order_book_delta "b"
    b_list ← iterate b
    bids ← each pair_deal b_list
    some (record {
      sequence_id = sequence_id;
      sequence_id_end = some sequence_id_end;
      bid = bids;
      ask = asks;
      timest_ms = timest_ms;
      trades_sell = [];
      trades_buy = [];
    })

  -- `order_book_delta.get(key, [])`
  unfoldable pub get_or_empty : Json → String → Option (List Json)
  unfolding get_field contains iterate
  get_or_empty tick key = elim (get_field tick key) [ none ↦ some [] | some deals ↦ iterate deals ]

  -- The book in `tick`.
  unfoldable pub huobi_book : ℕ → Json → ℕ → Option OrderBook
  unfolding get_field get_or_empty pair_deal new_order_book Exchange.id
  huobi_book timest_ms tick pair_id = do
    version ← get_field tick "version"
    sequence_id ← reader.to_long version
    ask_list ← get_or_empty tick "asks"
    asks ← each pair_deal ask_list
    bid_list ← get_or_empty tick "bids"
    bids ← each pair_deal bid_list
    new_order_book pair_id timest_ms asks bids (Exchange.id Exchange.huobi) (some sequence_id)

  unfoldable pub huobi_tick : ℕ → Json → ℕ → Option (Option OrderBook)
  unfolding get_field huobi_book
  huobi_tick timest_ms order_book_delta pair_id = do
    tick ← get_field order_book_delta "tick"
    book ← huobi_book timest_ms tick pair_id
    some (some book)

  -- `parse_socket_update_huobi`; the inner `none` is the `None` that it returns.
  unfoldable pub parse_socket_update_huobi : ℕ → Json → ℕ → Option (Option OrderBook)
  unfolding contains huobi_tick
  parse_socket_update_huobi timest_ms order_book_delta pair_id = do
    has_tick ← contains order_book_delta "tick"
    (if has_tick then huobi_tick timest_ms order_book_delta pair_id else some none)
