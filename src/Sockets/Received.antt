-- ===== src/Sockets/Received.antt =====
-- What the subscriptions hand to the listener: `on_public` of the five */socket_api.py, and
-- `parse_update_by_exchanges` (dao/socket_utils.py). A message is what `process_message` gives.
use Prim.Native.String.{String}
use text.Mathlib.Text.{find?}
use crypto_crawler.Prelude.{
  ℕ, Bool, true, not, ◌&&◌, Option, none, some, ◌>>=◌, ◌==◌, if◌then◌else◌,
}
use crypto_crawler.Enums.Exchange
use crypto_crawler.Enums.Exchange.{Exchange}
use crypto_crawler.OrderBook.Book.{OrderBook, OrderBookUpdate, Delta, snapshot, change}
use crypto_crawler.Sockets.{Json, Reader, is_some}
use crypto_crawler.Sockets.Parsers.{
  parse_socket_update_bittrex, parse_socket_update_binance, parse_socket_update_huobi,
}
use crypto_crawler.Sockets.Poloniex.{parse_socket_update_poloniex, parse_socket_order_book_poloniex}

abbrev pub changed : Option OrderBookUpdate → Option Delta
changed none = none
changed (some update) = some (change update)

abbrev pub replaced : Option OrderBook → Option Delta
replaced none = none
replaced (some book) = some (snapshot book)

module _ (reader : Reader) (timest_ms pair_id : ℕ) where
  unfoldable pub received_bittrex : Json → Option (Option Delta)
  unfolding parse_socket_update_bittrex
  received_bittrex msg = do
    update ← parse_socket_update_bittrex reader timest_ms msg
    some (some (change update))

  unfoldable pub received_binance : Json → Option (Option Delta)
  unfolding parse_socket_update_binance
  received_binance msg = do
    update ← parse_socket_update_binance reader timest_ms msg
    some (some (change update))

  unfoldable pub received_huobi : Json → Option (Option Delta)
  unfolding parse_socket_update_huobi
  received_huobi msg = do
    book ← parse_socket_update_huobi reader timest_ms msg pair_id
    some (replaced book)

  unfoldable pub poloniex_book : Json → Option (Option Delta)
  unfolding parse_socket_order_book_poloniex
  poloniex_book msg = do
    book ← parse_socket_order_book_poloniex reader timest_ms msg pair_id
    some (some (snapshot book))

  unfoldable pub poloniex_update : Json → Option (Option Delta)
  unfolding parse_socket_update_poloniex
  poloniex_update msg = do
    update ← parse_socket_update_poloniex reader timest_ms msg
    some (changed update)

  -- At Poloniex the first message whose text has "orderBook" is a book, and every other an update;
  -- with the flag `order_book_is_received` as it is then.
  unfoldable pub received_poloniex : Bool → String → Json → Bool × Option (Option Delta)
  unfolding poloniex_book poloniex_update
  received_poloniex order_book_is_received compressed_data msg =
      if not order_book_is_received && is_some (find? compressed_data "orderBook")
      then (true, poloniex_book msg)
      else (order_book_is_received, poloniex_update msg)

  -- What an exchange's subscription hands over, `none` where it hands over nothing or ends in an
  -- exception; there is none for Kraken.
  unfoldable pub received : Exchange → Bool → String → Json → Option (Option Delta)
  unfolding received_bittrex received_binance received_huobi received_poloniex
  received Exchange.bittrex flag raw msg = received_bittrex msg
  received Exchange.binance flag raw msg = received_binance msg
  received Exchange.huobi flag raw msg = received_huobi msg
  received Exchange.poloniex flag raw msg = (received_poloniex flag raw msg).1
  received Exchange.kraken flag raw msg = none

  -- `parse_update_by_exchanges`: the parser of Huobi wants the pair too, so that this call of it is a
  -- `TypeError`.
  unfoldable pub parse_update_by_exchanges : ℕ → Json → Option (Option Delta)
  unfolding Exchange.id received_bittrex received_binance poloniex_update
  parse_update_by_exchanges exchange_id msg =
      if exchange_id == Exchange.id Exchange.poloniex
      then poloniex_update msg
      else if exchange_id == Exchange.id Exchange.binance
      then received_binance msg
      else if exchange_id == Exchange.id Exchange.bittrex
      then received_bittrex msg
      else none
