-- ===== src/Tests/Sockets.antt =====
-- Examples for the messages of the sockets (*/socket_api.py).
use Prim.Native.Nat.{zero, suc}
use mathlib.Core.Option.{some-injective}
use crypto_crawler.Prelude.{ℕ, ◌≡◌, ◌≢◌, refl, ap, false, Option, none, some, List, [], ◌∷◌}
use crypto_crawler.Enums.Exchange
use crypto_crawler.Enums.Exchange.{Exchange}
use crypto_crawler.OrderBook.Search.{Deal}
use crypto_crawler.OrderBook.Insert.{died}
use crypto_crawler.OrderBook.Book.{OrderBook, OrderBookUpdate, change, name}
use crypto_crawler.OrderBook.Update.{update}
use crypto_crawler.Sockets.{
  Json, Items, nil, cons, array, Reader, iterate, get_field, get_item, read_deal,
}
use crypto_crawler.Sockets.Parsers.{parse_socket_update_binance, pair_deal}
use crypto_crawler.Sockets.Received.{received}
use crypto_crawler.Sockets.Laws.{update-received-ne-died}
use crypto_crawler.Sockets.RoundTrip.{binance_message, parse_socket_update_binance-message}

-- Numbers are written in tallies.
abbrev tally : ℕ → Items
tally zero = nil
tally (suc n) = cons Json.null (tally n)

abbrev count : Items → ℕ
count nil = 0
count (cons j js) = suc (count js)

abbrev counted : Json → Option ℕ
counted (array js) = some (count js)
counted _ = none

abbrev written : ℕ → Json
written n = array (tally n)

abbrev reader : Reader
reader = record { to_decimal = counted; to_long = counted; to_int = counted; equals = λ j n. false }

written-count : (n : ℕ) → counted (written n) ≡ some n
written-count zero = refl
written-count (suc n) = ap (λ k. some (suc k)) (some-injective _ _ (written-count n))

abbrev bids : List Deal
bids = record { price = 4; volume = 3 } ∷ []

abbrev asks : List Deal
asks = record { price = 6; volume = 2 } ∷ record { price = 7; volume = 0 } ∷ []

abbrev message : Json
message = binance_message written written 5 7 bids asks

abbrev parsed : OrderBookUpdate
parsed = record {
  sequence_id = 5;
  sequence_id_end = some 7;
  bid = bids;
  ask = asks;
  timest_ms = 1;
  trades_sell = [];
  trades_buy = [];
}

parse_socket_update_binance-message_example :
    parse_socket_update_binance reader 1 message ≡ some parsed
parse_socket_update_binance-message_example =
    parse_socket_update_binance-message reader written written written-count written-count 1 5 7
      bids asks

abbrev book : OrderBook
book = record {
  pair_id = 17;
  pair_name = name "BTC_TO_NEO";
  timest = 5;
  ask = [];
  bid = [];
  exchange_id = 4;
  exchange = name "BINANCE";
  sequence_id = some 4;
}

update-received-ne-died_example : update book (Exchange.id Exchange.binance) (change parsed) ≢ died
unfolding received parse_socket_update_binance get_field get_item iterate read_deal pair_deal
update-received-ne-died_example =
    update-received-ne-died reader 1 17 Exchange.binance false "" message book
      {delta = change parsed} refl
