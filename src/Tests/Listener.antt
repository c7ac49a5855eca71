-- ===== src/Tests/Listener.antt =====
-- Examples for the listener (services/arbitrage_between_pair_subscription.py): a run that buys at
-- Bittrex and sells at Poloniex, up to the end of its synchronisation.
use crypto_crawler.Prelude.{ℕ, ◌≡◌, refl, true, false, some, none, List, [], ◌∷◌, arith}
use crypto_crawler.Currencies.Dict.{get_by_pair, get_by_exchange}
use crypto_crawler.Currencies.PairNames.{get_pair_name_by_id}
use crypto_crawler.Currencies.ByExchange.{get_exchange_name_by_id}
use crypto_crawler.Enums.Exchange
use crypto_crawler.OrderBook.Search.{Deal}
use crypto_crawler.OrderBook.Book.{
  name, OrderBook, OrderBookUpdate, Delta, change, new_order_book, sort_by_price,
}
use crypto_crawler.OrderBook.Book.Sort.{IsDistinct}
use crypto_crawler.OrderBook.Update.{update}
use crypto_crawler.OrderBook.Update.Sequence.{IsGapless}
use crypto_crawler.Listener.{
  before_sync, after_sync, fetching, draining, drained, Side, Listener, buying, selling,
  new_listener, new_side,
}
use crypto_crawler.Listener.Sync.{init_reset, subscribe, sync_fetch, sync_round, sync_finish, join}
use crypto_crawler.Listener.Sync.Drain.{
  in_loop, run_rounds, Ends, run_rounds-Ends, update_from_queue-IsGapless,
}
use crypto_crawler.Listener.Messages.{on_order_book_update}
use crypto_crawler.Listener.Messages.Effects.{IsStopped, on_order_book_update-IsStopped}
use crypto_crawler.Listener.Runs.{
  CanReset, resets, subscribes, fetches, drains, finishes, joins, delivers, Reach, starts, steps,
}
use crypto_crawler.Listener.Runs.Valid.{IsValid}
use crypto_crawler.Listener.Runs.Invariant.{Reach-IsValid}

abbrev deal : ℕ → ℕ → Deal
deal p v = record { price = p; volume = v }

-- A snapshot of Bittrex with its number, and a change.
abbrev book_at : ℕ → List Deal → List Deal → OrderBook
book_at s ask bid = record {
  pair_id = 1;
  pair_name = name "BTC_TO_DASH";
  timest = 0;
  ask = ask;
  bid = bid;
  exchange_id = 3;
  exchange = name "BITTREX";
  sequence_id = some s;
}

abbrev change_at : ℕ → OrderBookUpdate
change_at s = record {
  sequence_id = s;
  sequence_id_end = none;
  bid = deal 90 0 ∷ [];
  ask = deal 250 6000 ∷ [];
  timest_ms = 0;
  trades_sell = [];
  trades_buy = [];
}

abbrev fetched : OrderBook
fetched = book_at 10 (deal 300 9000 ∷ deal 200 7000 ∷ []) (deal 80 7000 ∷ deal 90 5000 ∷ [])

abbrev synced_book : OrderBook
synced_book = book_at 11 (deal 200 7000 ∷ deal 250 6000 ∷ deal 300 9000 ∷ []) (deal 80 7000 ∷ [])

abbrev empty_book : OrderBook
empty_book = record {
  pair_id = 1;
  pair_name = name "BTC_TO_DASH";
  timest = 5;
  ask = [];
  bid = [];
  exchange_id = 1;
  exchange = name "POLONIEX";
  sequence_id = none;
}

abbrev synced_listener : Listener
synced_listener = record {
  pair_id = 1;
  buy = record (new_side 3) {
    running = true;
    order_book = some synced_book;
    order_book_synced = true;
  };
  sell = record (new_side 1) {
    running = true;
    order_book = some empty_book;
    order_book_synced = true;
  };
  stage = after_sync;
  update_balance_run_flag = true;
  update_min_cap_run_flag = true;
  deal_cap = (new_listener 1 3 1 0).deal_cap;
}

-- After the reset and both subscriptions.
abbrev subscribed_listener : Listener
subscribed_listener = record synced_listener {
  buy = record (new_side 3) {
    running = true;
    order_book = some (record empty_book { exchange_id = 3; exchange = name "BITTREX" });
    thread = fetching;
  };
  sell = record (new_side 1) { running = true; order_book = some empty_book; thread = fetching };
  stage = before_sync;
}

subscribed_run : Reach false 1 3 1 0 subscribed_listener
unfolding new_listener new_order_book init_reset subscribe get_pair_name_by_id get_by_pair
    get_exchange_name_by_id get_by_exchange
subscribed_run =
    let can : CanReset (new_listener 1 3 1 0) = record {
      buy_stopped = refl;
      sell_stopped = refl;
      buy_ended = refl;
      sell_ended = refl;
    } in
    let r1 = steps starts (resets 5 can refl) in
    let r2 = steps r1 (subscribes buying refl) in steps r2 (subscribes selling refl)

-- After a snapshot and a change have arrived.
abbrev waiting_side : Side
waiting_side = record (new_side 3) {
  running = true;
  order_book =
      some (book_at 10 (deal 200 7000 ∷ deal 300 9000 ∷ []) (deal 90 5000 ∷ deal 80 7000 ∷ []));
  exchange_updates = change (change_at 11) ∷ [];
  thread = draining;
}

abbrev waiting_listener : Listener
waiting_listener = record subscribed_listener {
  buy = waiting_side;
  sell = record (new_side 1) { running = true; order_book = some empty_book; thread = drained };
}

fetched-IsProper : IsDistinct fetched.ask × IsDistinct fetched.bid
fetched-IsProper =
    (((λ e. omega (arith, e), tt), (tt, tt)), ((λ e. omega (arith, e), tt), (tt, tt)))

waiting_run : Reach false 1 3 1 0 waiting_listener
unfolding new_listener sync_fetch on_order_book_update get_exchange_name_by_id get_by_exchange
    sort_by_price
waiting_run =
    let r1 = steps subscribed_run (fetches buying (some fetched) fetched-IsProper refl) in
    let r2 = steps r1 (fetches selling none tt refl) in
    steps r2 (delivers 3 (some (change (change_at 11))) tt refl)

synced_run : Reach false 1 3 1 0 synced_listener
unfolding new_listener new_side sync_round sync_finish join update
synced_run =
    let r1 = steps waiting_run (drains buying refl refl) in
    let r2 = steps r1 (drains buying refl refl) in
    let r3 = steps r2 (finishes buying refl) in
    let r4 = steps r3 (finishes selling refl) in steps r4 (joins refl refl refl)

Reach-IsValid_example : IsValid synced_listener
Reach-IsValid_example = Reach-IsValid synced_run

on_order_book_update-IsStopped_example : IsStopped (record synced_listener {
  buy = record synced_listener.buy { running = false };
  sell = record synced_listener.sell { running = false };
})
unfolding on_order_book_update get_exchange_name_by_id get_by_exchange new_listener new_side update
on_order_book_update-IsStopped_example =
    on_order_book_update-IsStopped 3 (change (change_at 13)) synced_listener refl refl

run_rounds-Ends_example :
    Ends (run_rounds 2 (in_loop (new_side 3) fetched (change (change_at 11) ∷ [])))
run_rounds-Ends_example =
    run_rounds-Ends (new_side 3) fetched (change (change_at 11) ∷ []) (refl, tt)

update_from_queue-IsGapless_example :
    (book : OrderBook) × (some synced_book ≡ some book)
    × (◌≡◌ {A = List Delta} [] [])
    × IsGapless 10 (change_at 11 ∷ []) book.sequence_id
unfolding run_rounds new_side Exchange.id update
update_from_queue-IsGapless_example =
    update_from_queue-IsGapless waiting_side
      (book_at 10 (deal 200 7000 ∷ deal 300 9000 ∷ []) (deal 90 5000 ∷ deal 80 7000 ∷ []))
      (change_at 11 ∷ []) 10
      {side' = record waiting_side {
        order_book = some synced_book;
        exchange_updates = [];
        thread = drained;
      }}
      refl refl refl refl
