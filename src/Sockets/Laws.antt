-- ===== src/Sockets/Laws.antt =====
-- What is received from a socket never ends the process (*/socket_api.py, data/order_book.py).
use Prim.Native.String.{String}
use mathlib.Core.Option.{some-injective}
use crypto_crawler.Prelude.{ℕ, sym, ap, subst, >>=-eq-some, [], ◌≡◌, ◌≢◌, Bool, Option, none, some}
use crypto_crawler.Enums.Exchange
use crypto_crawler.Enums.Exchange.{Exchange}
use crypto_crawler.Currencies.Dict.{get_by_exchange, get_by_id}
use crypto_crawler.OrderBook.Insert.{died}
use crypto_crawler.OrderBook.Book.{OrderBook, OrderBookUpdate, Delta}
use crypto_crawler.OrderBook.Update.{update, method_by_exchange}
use crypto_crawler.OrderBook.Update.Fills.{HasNoAskFill, update-ne-died, poloniex-ne-died}
use crypto_crawler.Sockets.{Json, Reader, get_field, iterate, each}
use crypto_crawler.Sockets.Parsers.{
  bittrex_side, pair_deal, parse_socket_update_bittrex, parse_socket_update_binance,
  parse_socket_update_huobi,
}
use crypto_crawler.Sockets.Received.{
  received_bittrex, received_binance, received_huobi, replaced, received,
}

-- The change reports no fill.
abbrev NoFills : OrderBookUpdate → Type 0
NoFills delta = delta.trades_sell ≡ []

module _ (reader : Reader) (t : ℕ) (msg : Json) where
  bittrex-NoFills :
      {delta : OrderBookUpdate}
      → parse_socket_update_bittrex reader t msg ≡ some delta
      → NoFills delta
  unfolding parse_socket_update_bittrex
  bittrex-NoFills e =
      let (nonce, _, e1) = >>=-eq-some (get_field msg "N") _ e in
      let (number, _, e2) = >>=-eq-some (reader.to_long nonce) _ e1 in
      let (sells, _, e3) = >>=-eq-some (get_field msg "S") _ e2 in
      let (buys, _, e4) = >>=-eq-some (get_field msg "Z") _ e3 in
      let (fills, _, e5) = >>=-eq-some (get_field msg "f") _ e4 in
      let (sell_list, _, e6) = >>=-eq-some (iterate sells) _ e5 in
      let (asks, _, e7) = >>=-eq-some (bittrex_side reader sell_list) _ e6 in
      let (buy_list, _, e8) = >>=-eq-some (iterate buys) _ e7 in
      let (bids, _, e9) = >>=-eq-some (bittrex_side reader buy_list) _ e8 in
      ap (λ u. u.trades_sell) (sym (some-injective _ _ e9))

  binance-NoFills :
      {delta : OrderBookUpdate}
      → parse_socket_update_binance reader t msg ≡ some delta
      → NoFills delta
  unfolding parse_socket_update_binance
  binance-NoFills e =
      let (first, _, e1) = >>=-eq-some (get_field msg "U") _ e in
      let (number, _, e2) = >>=-eq-some (reader.to_long first) _ e1 in
      let (last, _, e3) = >>=-eq-some (get_field msg "u") _ e2 in
      let (end, _, e4) = >>=-eq-some (reader.to_long last) _ e3 in
      let (a, _, e5) = >>=-eq-some (get_field msg "a") _ e4 in
      let (a_list, _, e6) = >>=-eq-some (iterate a) _ e5 in
      let (asks, _, e7) = >>=-eq-some (each (pair_deal reader) a_list) _ e6 in
      let (b, _, e8) = >>=-eq-some (get_field msg "b") _ e7 in
      let (b_list, _, e9) = >>=-eq-some (iterate b) _ e8 in
      let (bids, _, e10) = >>=-eq-some (each (pair_deal reader) b_list) _ e9 in
      ap (λ u. u.trades_sell) (sym (some-injective _ _ e10))

replaced-HasNoAskFill :
    (book : Option OrderBook) {delta : Delta} → replaced book ≡ some delta → HasNoAskFill delta
replaced-HasNoAskFill none e = cc
replaced-HasNoAskFill (some book) e = subst HasNoAskFill (some-injective _ _ e) tt

update-poloniex :
    (book : OrderBook) (delta : Delta) → update book (Exchange.id Exchange.poloniex) delta ≢ died
unfolding update method_by_exchange get_by_exchange get_by_id Exchange.id
update-poloniex book delta = poloniex-ne-died book delta

-- At every exchange and on every message: what the subscription reads from it and hands over never
-- ends the process in update, on any book.
pub update-received-ne-died :
    (reader : Reader) (t pair_id : ℕ) (e : Exchange) (flag : Bool) (raw : String) (msg : Json)
    (book : OrderBook) {delta : Delta}
    → received reader t pair_id e flag raw msg ≡ some (some delta)
    → update book (Exchange.id e) delta ≢ died
unfolding received received_bittrex received_binance received_huobi
update-received-ne-died reader t p Exchange.bittrex flag raw msg book h =
    let (u, parsed, same) = >>=-eq-some (parse_socket_update_bittrex reader t msg) _ h in
    update-ne-died book _ _ (
      subst HasNoAskFill (some-injective _ _ (some-injective _ _ same))
        (bittrex-NoFills reader t msg parsed))
update-received-ne-died reader t p Exchange.binance flag raw msg book h =
    let (u, parsed, same) = >>=-eq-some (parse_socket_update_binance reader t msg) _ h in
    update-ne-died book _ _ (
      subst HasNoAskFill (some-injective _ _ (some-injective _ _ same))
        (binance-NoFills reader t msg parsed))
update-received-ne-died reader t p Exchange.huobi flag raw msg book h =
    let (b, parsed, same) = >>=-eq-some (parse_socket_update_huobi reader t msg p) _ h in
    update-ne-died book _ _ (replaced-HasNoAskFill b (some-injective _ _ same))
update-received-ne-died reader t p Exchange.poloniex flag raw msg book {delta = delta} h =
    update-poloniex book delta
update-received-ne-died reader t p Exchange.kraken flag raw msg book h = absurd cc
