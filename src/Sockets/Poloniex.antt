-- ===== src/Sockets/Poloniex.antt =====
-- The parsers of Poloniex (poloniex/socket_api.py). `none` is an exception.
use crypto_crawler.Prelude.{
  ℕ, ◌++◌, Option, none, some, ◌>>=◌, List, [], ◌∷◌, length, ltb, if◌then◌else◌,
}
use crypto_crawler.Enums.Exchange
use crypto_crawler.Enums.Exchange.{Exchange}
use crypto_crawler.OrderBook.Search.{Deal}
use crypto_crawler.OrderBook.Book.{OrderBook, OrderBookUpdate, new_order_book}
use crypto_crawler.Sockets.{
  Json, Reader, iterate, iteritems, get_field, get_item, each, is_text, read_deal,
}

-- What the loop over the entries of a message collects.
pub record Collected : Type 0 where
  pub asks : List Deal
  pub bids : List Deal
  pub trades_sell : List Deal
  pub trades_buy : List Deal

abbrev pub nothing_yet : Collected
nothing_yet = record { asks = []; bids = []; trades_sell = []; trades_buy = [] }

-- `len(json)`
unfoldable pub len_of : Json → Option ℕ
unfolding iterate
len_of json = do items ← iterate json; some (length items)

module _ (reader : Reader) where
  -- `POLONIEX_WEBSOCKET_ORDER_ASK` is 0 and `POLONIEX_WEBSOCKET_ORDER_BID` is 1.
  unfoldable pub add_order_deal : Json → Deal → Collected → Collected
  add_order_deal side new_deal c =
      if reader.equals side 0
      then record c { asks = c.asks ++ new_deal ∷ [] }
      else if reader.equals side 1
      then record c { bids = c.bids ++ new_deal ∷ [] }
      else c

  unfoldable pub add_trade_deal : Json → Deal → Collected → Collected
  add_trade_deal side new_deal c =
      if reader.equals side 1
      then record c { trades_sell = c.trades_sell ++ new_deal ∷ [] }
      else if reader.equals side 0
      then record c { trades_buy = c.trades_buy ++ new_deal ∷ [] }
      else c

  -- An entry that begins with `POLONIEX_WEBSOCKET_ORDER`.
  unfoldable pub order_entry : Json → Collected → Option Collected
  unfolding get_item read_deal add_order_deal
  order_entry entry c = do
    price ← get_item entry 2
    volume ← get_item entry 3
    new_deal ← read_deal reader price volume
    side ← get_item entry 1
    some (add_order_deal side new_deal c)

  -- An entry that begins with `POLONIEX_WEBSOCKET_TRADE`.
  unfoldable pub trade_entry : Json → Collected → Option Collected
  unfolding get_item read_deal add_trade_deal
  trade_entry entry c = do
    price ← get_item entry 3
    volume ← get_item entry 4
    new_deal ← read_deal reader price volume
    side ← get_item entry 2
    some (add_trade_deal side new_deal c)

  unfoldable pub collect_entry : Json → Collected → Option Collected
  unfolding get_item order_entry trade_entry
  collect_entry entry c = do
    kind ← get_item entry 0
    (if is_text kind "o"
        then order_entry entry c
        else if is_text kind "t"
        then trade_entry entry c
        else some c)

  unfoldable pub collect : List Json → Collected → Option Collected
  unfolding collect_entry
  collect [] c = some c
  collect (entry ∷ entries) c = do c' ← collect_entry entry c; collect entries c'

  unfoldable pub long_message : ℕ → Json → Option (Option OrderBookUpdate)
  unfolding get_item iterate collect
  long_message timest_ms order_book_delta = do
    number ← get_item order_book_delta 1
    sequence_id ← reader.to_long number
    delta ← get_item order_book_delta 2
    entries ← iterate delta
    c ← collect entries nothing_yet
    some (
        some (record {
          sequence_id = sequence_id;
          sequence_id_end = none;
          bid = c.bids;
          ask = c.asks;
          timest_ms = timest_ms;
          trades_sell = c.trades_sell;
          trades_buy = c.trades_buy;
        }))

  -- `parse_socket_update_poloniex`; the inner `none` is the `None` of a short message.
  unfoldable pub parse_socket_update_poloniex : ℕ → Json → Option (Option OrderBookUpdate)
  unfolding len_of long_message
  parse_socket_update_poloniex timest_ms order_book_delta = do
    n ← len_of order_book_delta
    (if ltb n 3 then some none else long_message timest_ms order_book_delta)

  -- `Deal(k, v)`
  unfoldable pub entry_deal : Json × Json → Option Deal
  unfolding read_deal
  entry_deal (k, v) = read_deal reader k v

  -- `parse_socket_order_book_poloniex`
  unfoldable pub parse_socket_order_book_poloniex : ℕ → Json → ℕ → Option OrderBook
  unfolding get_item get_field iteritems entry_deal new_order_book Exchange.id
  parse_socket_order_book_poloniex timest_ms order_book_snapshot pair_id = do
    number ← get_item order_book_snapshot 1
    sequence_id ← reader.to_long number
    deltas ← get_item order_book_snapshot 2
    first ← get_item deltas 0
    content ← get_item first 1
    books ← get_field content "orderBook"
    ask_book ← get_item books 0
    ask_entries ← iteritems ask_book
    asks ← each entry_deal ask_entries
    bid_book ← get_item books 1
    bid_entries ← iteritems bid_book
    bids ← each entry_deal bid_entries
    new_order_book pair_id timest_ms asks bids (Exchange.id Exchange.poloniex) (some sequence_id)
