-- ===== src/Sockets/RoundTrip.antt =====
-- A change that is written as the documentation of Binance says is read back (binance/socket_api.py).
use crypto_crawler.Prelude.{ℕ, ◌≡◌, refl, some, List, [], ◌∷◌}
use crypto_crawler.OrderBook.Search.{Deal}
use crypto_crawler.Sockets.{
  Json, Items, nil, cons, end, field, array, object, Reader, listed, iterate, get_field, get_item,
  each, read_deal,
}
use crypto_crawler.Sockets.Parsers.{pair_deal, parse_socket_update_binance}

-- A way to write amounts and whole numbers.
module _ (amount number : ℕ → Json) where
  -- `["0.04073500", "2.02000000", []]`
  abbrev entry : Deal → Json
  entry d = array (cons (amount d.price) (cons (amount d.volume) (cons (array nil) nil)))

  abbrev entries : List Deal → Items
  entries [] = nil
  entries (d ∷ ds) = cons (entry d) (entries ds)

  -- `{"U": 157, "u": 160, "b": [...], "a": [...]}`
  abbrev pub binance_message : ℕ → ℕ → List Deal → List Deal → Json
  binance_message first last bids asks = object (
      field "U" (number first) (
        field "u" (number last)
          (field "b" (array (entries bids)) (field "a" (array (entries asks)) end))))

-- `Decimal(str(x))` and `long(x)` read what is written.
module _ (reader : Reader) (amount number : ℕ → Json)
    (reads_amount : (n : ℕ) → reader.to_decimal (amount n) ≡ some n)
    (reads_number : (n : ℕ) → reader.to_long (number n) ≡ some n) where
  pair_deal-entry : (d : Deal) → pair_deal reader (entry amount number d) ≡ some d
  unfolding pair_deal get_item read_deal
  pair_deal-entry d = rw (reads_amount d.price, reads_amount d.volume) refl

  each-entries :
      (ds : List Deal) → each (pair_deal reader) (listed (entries amount number ds)) ≡ some ds
  each-entries [] = refl
  each-entries (d ∷ ds) = rw (pair_deal-entry d, each-entries ds) refl

  -- If amounts and numbers are written so that they are read back, then the message that has two
  -- numbers, some bids and some asks in the format of Binance is parsed as the change with these
  -- numbers, these bids and these asks, in their order, and no fills.
  pub parse_socket_update_binance-message :
      (timest_ms first last : ℕ) (bids asks : List Deal)
      → parse_socket_update_binance reader timest_ms
          (binance_message amount number first last bids asks)
        ≡ some (record {
          sequence_id = first;
          sequence_id_end = some last;
          bid = bids;
          ask = asks;
          timest_ms = timest_ms;
          trades_sell = [];
          trades_buy = [];
        })
  unfolding parse_socket_update_binance get_field iterate
  parse_socket_update_binance-message t first last bids asks =
      rw (reads_number first, reads_number last, each-entries asks, each-entries bids) refl
